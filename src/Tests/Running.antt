-- ===== src/Tests/Running.antt =====
-- A run of the server from new tables.
use wrongthink.Base.{true, false, List, [], ◌∷◌, map, refl, ◌≡◌, inl}
use wrongthink.Interceptor.Banned.{metadata_received, message_received}
use wrongthink.Main.{served, is_argument}
use wrongthink.Server.{Incoming, program}
use wrongthink.Server.Whole.{program-IsServedSoundly}
use wrongthink.Base.Int.{pos}
use wrongthink.Service.Soundness.Handlers.{IsReliable, IsServedSoundly}
use wrongthink.Service.Soundness.Runs.{
  Request, creates_user, creates_community, creates_channel, sends_web, bans_user, listens,
  gets_channels, handle_all, handle_all-IsServedSoundly, new_service, new_service-IsServedSoundly,
}
use wrongthink.Tests.Engines.{postgres, postgres-IssuesFreshIds}
use wrongthink.Tests.Samples.{chat_db, hi, nowhere, alice_login}

pub postgres-IsReliable : IsReliable postgres
postgres-IsReliable = record { null = refl; fresh = postgres-IssuesFreshIds; enforced = refl }

abbrev requests : List Request
requests =
    creates_user (record { uname = "alice"; password = "secret"; admin = false })
    ∷ creates_user (record { uname = "bob"; password = "hunter2"; admin = false })
    ∷ creates_user (record { uname = "alice"; password = "again"; admin = true })
    ∷ creates_community 0 (record { name = "main"; adminid = 1; public = true })
    ∷ creates_channel (record { name = "general"; communityid = 1; adminid = 1; anonymous = false })
    ∷ listens 1
    ∷ sends_web (λ n. 1600000000) hi
    ∷ sends_web (λ n. 1600000000) nowhere
    ∷ bans_user 1600000000 alice_login (record { uname = "bob"; days = pos 1 })
    ∷ gets_channels 1
    ∷ []

handle_all-IsServedSoundly_example : IsServedSoundly (handle_all postgres requests new_service)
handle_all-IsServedSoundly_example =
    handle_all-IsServedSoundly postgres postgres-IsReliable requests new_service
      new_service-IsServedSoundly

-- A request as it comes in, with the bans looked up before it.
abbrev pub call_of : Request → Incoming
call_of r = record {
  peer = "ipv4:10.0.0.1";
  metadata = alice_login;
  fields = record { defaults = ("uname", "") ∷ []; values = ("uname", "bob") ∷ [] };
  batches =
      (metadata_received, 1600000000, 1600000000) ∷ (message_received, 1600000000, 1600000001) ∷ [];
  handled = true;
  request = r;
}

program-IsServedSoundly_example :
    ((program postgres ("wrongthink" ∷ "clear" ∷ []) (map call_of requests) chat_db).0 ≡ served)
    × IsServedSoundly
        (program postgres ("wrongthink" ∷ "clear" ∷ []) (map call_of requests) chat_db).1
unfolding is_argument
program-IsServedSoundly_example =
    program-IsServedSoundly postgres postgres-IsReliable ("wrongthink" ∷ "clear" ∷ [])
      (map call_of requests) chat_db refl (inl refl)
