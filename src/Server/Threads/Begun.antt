-- ===== src/Server/Threads/Begun.antt =====
-- Where the threads of the server begin (Server.Threads), and what follows the checks of the
-- interceptor.
use wrongthink.Interceptor.{HookPoints}
use wrongthink.Base.{
  map, ℕ, String, Bool, true, false, Option, none, some, List, drop, [], ◌∷◌, Bool-cases, inl, inr,
}
use wrongthink.Proto.{WrongthinkMessage, BanUserRequest}
use wrongthink.Db.Tables.{Db}
use wrongthink.Db.Bans.Lookups.{
  Looking, selecting_ip, deleting_ip, selecting_user, deleting_user, checking_ip, clearing_ip,
  inserting_ip, looked,
}
use wrongthink.Auth.{process}
use wrongthink.Server.{Incoming, is_ok, nothing_processed}
use wrongthink.Service.Soundness.Runs.{
  Request, generates_user, creates_user, bans_user, creates_channel, creates_community, sends_web,
  sends, listens, gets_messages, gets_channels, gets_communities, deletes_message,
}
use wrongthink.Service.{Service}
use wrongthink.Service.Accounts.Guarding.{guarded}
use wrongthink.Server.Threads.{
  streaming, begun, next_batch, arrived, next_check, checked, checks_of,
}
use wrongthink.Server.Threads.Backed.{IsBacked, IsGuarded}

-- A handler begins with nothing to its name.
streaming-IsBacked : (s : Service) (msgs : List WrongthinkMessage) → IsBacked s (streaming msgs)
streaming-IsBacked s [] = tt
streaming-IsBacked s (msg ∷ msgs) = (tt, tt)

guarded-IsGuarded :
    (db : Db) (request : BanUserRequest) (creds : Option (String × String))
    → IsGuarded db (guarded request creds)
guarded-IsGuarded db request none = tt
guarded-IsGuarded db request (some (uname, token)) = tt

begun-IsBacked : (s : Service) (r : Request) → IsBacked s (begun r)
begun-IsBacked s (generates_user uuid1 uuid2) = tt
begun-IsBacked s (creates_user request) = tt
begun-IsBacked s (bans_user now cmeta request) = guarded-IsGuarded s.db request _
begun-IsBacked s (creates_channel request) = tt
begun-IsBacked s (creates_community garbage request) = tt
begun-IsBacked s (sends_web clock msg) = (tt, tt)
begun-IsBacked s (sends clock reader) = streaming-IsBacked s (drop reader.pos reader.obj_list)
begun-IsBacked s (listens channelid) = tt
begun-IsBacked s (gets_messages request) = tt
begun-IsBacked s (gets_channels community) = tt
begun-IsBacked s (gets_communities scan) = tt
begun-IsBacked s deletes_message = tt

pub next_batch-IsBacked :
    (s : Service) (batches : List (List Looking)) (handled : Bool) (request : Request)
    → IsBacked s (next_batch batches handled request)
next_batch-IsBacked s [] true request = begun-IsBacked s request
next_batch-IsBacked s [] false request = tt
next_batch-IsBacked s ([] ∷ batches) handled request = next_batch-IsBacked s batches handled request
next_batch-IsBacked s ((p ∷ ps) ∷ batches) handled request = tt

pub arrived-IsBacked : (s : Service) (i : Incoming) → IsBacked s (arrived i)
arrived-IsBacked s i = elim (Bool-cases (is_ok (process i.metadata nothing_processed).0.code)) [
  | inl accepted ↦ rw accepted (
      next_batch-IsBacked s
        (map (λ (b : HookPoints × ℕ × ℕ). checks_of i.peer i.fields b.0) i.batches) i.handled
        i.request)
  | inr refused ↦ rw refused tt
]

next_check-IsBacked :
    (s : Service) (ps : List Looking) (batches : List (List Looking)) (handled : Bool)
    (request : Request)
    → IsBacked s (next_check ps batches handled request)
next_check-IsBacked s [] batches handled request = next_batch-IsBacked s batches handled request
next_check-IsBacked s (p ∷ ps) batches handled request = tt

-- The checks leave nothing to rely on.
pub checked-IsBacked :
    (s : Service) (ps : List Looking) (batches : List (List Looking)) (handled : Bool)
    (request : Request) (p : Looking)
    → IsBacked s (checked ps batches handled request p)
checked-IsBacked s ps batches handled request (looked banned) =
    next_check-IsBacked s ps batches handled request
checked-IsBacked s ps batches handled request (Looking.failed x) =
    next_batch-IsBacked s batches handled request
checked-IsBacked s ps batches handled request (selecting_ip ip) = tt
checked-IsBacked s ps batches handled request (deleting_ip ip) = tt
checked-IsBacked s ps batches handled request (selecting_user uname ip) = tt
checked-IsBacked s ps batches handled request (deleting_user uname) = tt
checked-IsBacked s ps batches handled request (checking_ip ip date) = tt
checked-IsBacked s ps batches handled request (clearing_ip ip date) = tt
checked-IsBacked s ps batches handled request (inserting_ip ip date) = tt
