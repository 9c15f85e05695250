-- ===== src/Service/Soundness/Runs.antt =====
-- A server that handles any requests, one after the other (WrongthinkServiceImpl.cpp).
use mathlib.Core.Path.{subst}
use wrongthink.Base.{
  ℕ, zero, suc, String, Bool, true, false, Option, none, some, List, [], ◌∷◌, length, refl, sym,
  arith, if◌then◌else◌,
}
use wrongthink.Action.{Action, Outcome, ok, thrown, pure, and_then}
use wrongthink.Proto.{
  Status, invalid_status, no_user, no_channel, no_community, WrongthinkMessage, BanUserRequest,
  CreateUserRequest, CreateWrongThinkChannelRequest, CreateWrongthinkCommunityRequest,
  GetWrongthinkMessagesRequest,
}
use wrongthink.Auth.{Metadata}
use wrongthink.Db.Engine.{Engine}
use wrongthink.Db.Cells.{Row}
use wrongthink.Db.Setup.Cleared.{empty_db}
use wrongthink.Service.{Service, ReaderWrapper, read}
use wrongthink.Service.Accounts.{generate_user, create_user_rpc, ban_user_rpc}
use wrongthink.Service.Places.{
  create_wrongthink_channel, create_wrongthink_community, get_wrongthink_channels,
  get_wrongthink_communities,
}
use wrongthink.Service.Places.Listing.{
  get_wrongthink_channels_lem, get_wrongthink_communities-state,
}
use wrongthink.Service.Messaging.{
  send_one, send_round, send_loop, send_wrongthink_message, send_wrongthink_message_web,
  get_wrongthink_messages, listen_start, delete_message,
}
use wrongthink.Service.Messaging.Listing.{get_wrongthink_messages_lem}
use wrongthink.Service.Messaging.Listening.{listen_start_lem}
use wrongthink.Service.Messaging.Streams.{send_web-eq-stream, reader_at}
use wrongthink.Service.Soundness.{IsSound}
use wrongthink.Service.Soundness.Sends.{send_one-IsServedSoundly}
use wrongthink.Service.Soundness.Handlers.{
  IsServedSoundly, IsReliable, caught_state, create_user_rpc-IsServedSoundly,
  generate_user-IsServedSoundly, create_channel-IsServedSoundly, create_community-IsServedSoundly,
  ban_user_rpc-IsServedSoundly,
}

-- A call of a client, with the clocks that it reads, the uuids that it draws, the order in which
-- the engine scans a table and the value of an uninitialised variable.
pub data Request : Type 0 where
  generates_user : String → String → Request
  creates_user : CreateUserRequest → Request
  bans_user : ℕ → Metadata → BanUserRequest → Request
  creates_channel : CreateWrongThinkChannelRequest → Request
  creates_community : ℕ → CreateWrongthinkCommunityRequest → Request
  sends_web : (ℕ → ℕ) → WrongthinkMessage → Request
  sends : (ℕ → ℕ) → ReaderWrapper WrongthinkMessage → Request
  listens : ℕ → Request
  gets_messages : GetWrongthinkMessagesRequest → Request
  gets_channels : ℕ → Request
  gets_communities : (List Row → List Row) → Request
  deletes_message : Request

-- The service after the handler of the call.
pub handle : Engine → Request → Service → Service
handle e (generates_user uuid1 uuid2) s = (generate_user e uuid1 uuid2 no_user s).2
handle e (creates_user request) s = (create_user_rpc e request no_user s).2
handle e (bans_user now cmeta request) s =
    (ban_user_rpc e now cmeta request (record { message = "" }) s).2
handle e (creates_channel request) s = (create_wrongthink_channel e request no_channel s).2
handle e (creates_community garbage request) s =
    (create_wrongthink_community e garbage request no_community s).2
handle e (sends_web clock msg) s = (send_wrongthink_message_web e (clock 0) msg s).1
handle e (sends clock reader) s = (send_wrongthink_message e clock reader s).1
handle e (listens channelid) s = (listen_start e channelid s).1
handle e (gets_messages request) s = (get_wrongthink_messages request s).2
handle e (gets_channels community) s = (get_wrongthink_channels community s).2
handle e (gets_communities scan) s = (get_wrongthink_communities scan s).2
handle e deletes_message s = (delete_message s).1

pub handle_all : Engine → List Request → Service → Service
unfolding handle
handle_all e [] s = s
handle_all e (r ∷ rs) s = handle_all e rs (handle e r s)

-- What a step of the loop of a stream does keeps the server sound, if the rest of the loop does.
module _ (rest : Action Service Status)
    (keeps : (s : Service) → IsServedSoundly s → IsServedSoundly (rest s).1) where
  after_one :
      (p : Outcome Bool × Service)
      → IsServedSoundly p.1
      → IsServedSoundly (and_then (λ known. if known then rest else pure invalid_status) p).1
  after_one (ok true, s) v = keeps s v
  after_one (ok false, s) v = v
  after_one (thrown x, s) v = v

  send_round-IsServedSoundly :
      (e : Engine) (reliable : IsReliable e) (now : ℕ) (msg : Option WrongthinkMessage)
      (s : Service)
      → IsServedSoundly s
      → IsServedSoundly (send_round e now msg rest s).1
  unfolding send_round
  send_round-IsServedSoundly e reliable now none s v = v
  send_round-IsServedSoundly e reliable now (some msg) s v =
      after_one (send_one e now msg s) (send_one-IsServedSoundly e reliable s v now msg)

module _ (e : Engine) (reliable : IsReliable e) where
  send_loop-IsServedSoundly :
      (clock : ℕ → ℕ) (fuel : ℕ) (reader : ReaderWrapper WrongthinkMessage) (s : Service)
      → IsServedSoundly s
      → IsServedSoundly (send_loop e clock fuel reader s).1
  unfolding send_loop
  send_loop-IsServedSoundly clock zero reader s v = v
  send_loop-IsServedSoundly clock (suc fuel) reader s v =
      send_round-IsServedSoundly (send_loop e clock fuel (read reader).1)
        (send_loop-IsServedSoundly clock fuel (read reader).1) e reliable (clock reader.pos)
        (read reader).0 s v

  send-IsServedSoundly :
      (clock : ℕ → ℕ) (reader : ReaderWrapper WrongthinkMessage) (s : Service)
      → IsServedSoundly s
      → IsServedSoundly (send_wrongthink_message e clock reader s).1
  unfolding send_wrongthink_message
  send-IsServedSoundly clock reader s v =
      rw (caught_state (send_loop e clock (suc (length reader.obj_list)) reader s))
        (send_loop-IsServedSoundly clock (suc (length reader.obj_list)) reader s v)

  pub handle-IsServedSoundly :
      (r : Request) (s : Service) → IsServedSoundly s → IsServedSoundly (handle e r s)
  unfolding handle
  handle-IsServedSoundly (generates_user uuid1 uuid2) s v =
      generate_user-IsServedSoundly e reliable s v uuid1 uuid2 no_user
  handle-IsServedSoundly (creates_user request) s v =
      create_user_rpc-IsServedSoundly e reliable s v request no_user
  handle-IsServedSoundly (bans_user now cmeta request) s v =
      ban_user_rpc-IsServedSoundly e reliable s v now cmeta request (record { message = "" })
  handle-IsServedSoundly (creates_channel request) s v =
      create_channel-IsServedSoundly e reliable s v request no_channel
  handle-IsServedSoundly (creates_community garbage request) s v =
      create_community-IsServedSoundly e reliable s v garbage request no_community
  handle-IsServedSoundly (sends_web clock msg) s v =
      rw (send_web-eq-stream e clock msg s, handle)
        (send-IsServedSoundly clock (reader_at (msg ∷ []) 0) s v)
  handle-IsServedSoundly (sends clock reader) s v = send-IsServedSoundly clock reader s v
  handle-IsServedSoundly (listens channelid) s v =
      let (answer, same, db, serving) = listen_start_lem e channelid s reliable.null v.serving in
      record { serving = serving; sound = subst IsSound (sym db) v.sound }
  handle-IsServedSoundly (gets_messages request) s v =
      rw (get_wrongthink_messages_lem request s v.serving.ready v.sound.messages.rising, handle) v
  handle-IsServedSoundly (gets_channels community) s v =
      rw (get_wrongthink_channels_lem community s v.serving.ready v.sound.channels.rising, handle) v
  handle-IsServedSoundly (gets_communities scan) s v =
      rw (get_wrongthink_communities-state scan s v.serving.ready, handle) v
  handle-IsServedSoundly deletes_message s v = v

  -- Whatever calls come, in whatever order and with whatever outcome, a server that started with
  -- sound tables and a coherent map of live channels keeps them so: keys are fresh, names of
  -- accounts, communities and channels are unique, every reference is to a row that exists, every
  -- account and every address has one ban at most, and every live channel is in the table. This is
  -- so on an engine that enforces references, gives new rows fresh keys, and marks a row that was
  -- not found as null.
  pub handle_all-IsServedSoundly :
      (requests : List Request) (s : Service)
      → IsServedSoundly s
      → IsServedSoundly (handle_all e requests s)
  unfolding handle_all
  handle_all-IsServedSoundly [] s v = v
  handle_all-IsServedSoundly (r ∷ rs) s v =
      handle_all-IsServedSoundly rs (handle e r s) (handle-IsServedSoundly r s v)

-- The service on new tables.
abbrev pub new_service : Service
new_service = record { db = empty_db; channel_map = [] }

pub new_service-IsServedSoundly : IsServedSoundly new_service
new_service-IsServedSoundly = record {
  serving = record {
    ready = record {
      has_users = refl;
      has_banned_users = refl;
      has_banned_ips = refl;
      has_communities = refl;
      has_channels = refl;
      has_message = refl;
      has_control_message = refl;
    };
    coherent = tt;
  };
  sound = record {
    users = record { rising = tt; below = tt; started = omega arith };
    communities = record { rising = tt; below = tt; started = omega arith };
    channels = record { rising = tt; below = tt; started = omega arith };
    messages = record { rising = tt; below = tt; started = omega arith };
    user_names = tt;
    community_names = tt;
    channel_names = tt;
    community_admins = tt;
    channel_admins = tt;
    channel_communities = tt;
    message_authors = tt;
    message_channels = tt;
    bans = record { once = tt; accounts = tt; addresses = tt };
  };
}
