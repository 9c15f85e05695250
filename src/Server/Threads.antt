-- ===== src/Server/Threads.antt =====
-- The server at work on any number of calls at once (WrongthinkServiceImpl.cpp, DB/DBPostgres.cpp,
-- Interceptors/Interceptor.cpp): a thread for each call, which runs a statement, or uses
-- `channelMap` once, and lets others run.
pub mod Backed
pub mod Tables
pub mod Places
pub mod Begun
pub mod Guards
pub mod Interleaved
pub mod Program
pub mod Ending
use wrongthink.Base.{
  ℕ, String, Bool, false, Option, none, some, List, [], ◌∷◌, ◌++◌, map, drop, if◌then◌else◌,
}
use wrongthink.Auth.{Metadata, has_credentials, get_credentials, process}
use wrongthink.Interceptor as Interceptor
use wrongthink.Interceptor.{HookPoints, find_field}
use wrongthink.Server.{Incoming, service_on, is_ok, nothing_processed}
use wrongthink.Service.Accounts.Dashes.{strip_dashes}
use wrongthink.Service.Soundness.Runs.{
  Request, generates_user, creates_user, bans_user, creates_channel, creates_community, sends_web,
  sends, listens,
}
use wrongthink.Concurrent.{Pool, run}
use wrongthink.Proto.{StatusCode, Status, WrongthinkMessage}
use wrongthink.Db.Engine.{Engine}
use wrongthink.Db.Tables.{Db}
use wrongthink.Db.Users.Threads as Users
use wrongthink.Db.Users.Threads.{Creating}
use wrongthink.Db.Channels.Threads as Channels
use wrongthink.Db.Channels.Threads.{Making, inserting_channel, inserting_community}
use wrongthink.Db.Bans.Lookups as Lookups
use wrongthink.Db.Bans.Lookups.{Looking, selecting_ip, selecting_user, looked}
use wrongthink.Service.{Service}
use wrongthink.Service.Accounts.Guarding as Accounts
use wrongthink.Service.Accounts.Guarding.{Guarding, guarded}
use wrongthink.Service.Messaging.Threads as Messaging
use wrongthink.Service.Messaging.Threads.{Sending, counting, answered}
use wrongthink.Service.Messaging.Entering as Listeners
use wrongthink.Service.Messaging.Entering.{Entering}

-- What a thread is at. First come the checks of the interceptor: the one that runs, those behind it
-- in its batch, the other batches, and whether gRPC goes on to the handler. Then comes the handler:
-- `createUser` for `CreateUser` and `GenerateUser`; `createChannel` and `createCommunity` for those
-- of these names; `BanUser`; `ListenWrongthinkMessages` before its loop; and a stream of messages,
-- or `SendWrongthinkMessageWeb`, a stream of one: the messages that were sent, the one that is, and
-- those to come. A thread is idle behind its handler, and in one that runs a single statement, which
-- reads.
pub data Serving : Type 0 where
  checking : Looking → List Looking → List (List Looking) → Bool → Request → Serving
  creating : Creating → Serving
  making : Making → Serving
  guarding : Guarding → Serving
  entering : Entering → Serving
  sending : List WrongthinkMessage → Sending → List WrongthinkMessage → Serving
  idle : Serving

-- The first message of a stream is read.
abbrev pub streaming : List WrongthinkMessage → Serving
streaming [] = idle
streaming (msg ∷ msgs) = sending [] (Sending.counting msg) msgs

-- Where the handler of a call begins.
abbrev pub begun : Request → Serving
begun (generates_user uuid1 uuid2) =
    creating (Creating.counting (strip_dashes uuid1) (strip_dashes uuid2) false)
begun (creates_user request) =
    creating (Creating.counting request.uname request.password request.admin)
begun (bans_user now cmeta request) =
    guarding (guarded request (if has_credentials cmeta then get_credentials cmeta else none))
begun (creates_channel request) =
    making (inserting_channel request.name request.communityid request.adminid request.anonymous)
begun (creates_community garbage request) =
    making (inserting_community request.name request.adminid request.public garbage)
begun (sends_web clock msg) = streaming (msg ∷ [])
begun (sends clock reader) = streaming (drop reader.pos reader.obj_list)
begun (listens channelid) = entering (Entering.counting channelid)
begun _ = idle

abbrev pub user_check : String → Option String → List Looking
user_check peer none = []
user_check peer (some uname) = selecting_user uname peer ∷ []

-- The checks of one batch of hook points, and of the batches of a call.
abbrev pub checks_of : String → Interceptor.Request → HookPoints → List Looking
checks_of peer fields hooks =
    (if hooks.post_recv_initial_metadata then selecting_ip peer ∷ [] else [])
    ++ (if hooks.post_recv_message
        then user_check peer (find_field "uname" fields.defaults)
        else [])

-- What follows the checks of a batch.
abbrev pub next_batch : List (List Looking) → Bool → Request → Serving
next_batch [] handled request = if handled then begun request else idle
next_batch ([] ∷ batches) handled request = next_batch batches handled request
next_batch ((p ∷ ps) ∷ batches) handled request = checking p ps batches handled request

-- A call that has come: the credential processor lets it through, or refuses it.
abbrev pub arrived : Incoming → Serving
arrived i =
    if is_ok (process i.metadata nothing_processed).0.code
    then next_batch (map (λ (b : HookPoints × ℕ × ℕ). checks_of i.peer i.fields b.0) i.batches)
        i.handled i.request
    else idle

-- What follows a check that has answered: the next of its batch.
abbrev pub next_check : List Looking → List (List Looking) → Bool → Request → Serving
next_check [] batches handled request = next_batch batches handled request
next_check (p ∷ ps) batches handled request = checking p ps batches handled request

-- What follows a statement of a check. One that throws ends its batch.
abbrev pub checked : List Looking → List (List Looking) → Bool → Request → Looking → Serving
checked ps batches handled request (looked banned) = next_check ps batches handled request
checked ps batches handled request (Looking.failed x) = next_batch batches handled request
checked ps batches handled request p = checking p ps batches handled request

-- A statement on the database of the service.
abbrev pub on_service : {P : Type 0} → (P → Serving) → Service → P × Db → Serving × Service
on_service f s (p, db) = (f p, record s { db = db })

abbrev pub as_entering : Entering × Service → Serving × Service
as_entering (p, s) = (entering p, s)

abbrev pub as_sending :
    List WrongthinkMessage → List WrongthinkMessage → Sending × Service → Serving × Service
as_sending sent rest (p, s) = (sending sent p rest, s)

-- `while (reader->Read(&msg))`: the stream goes on while messages are accepted.
abbrev pub after_sent :
    List WrongthinkMessage
    → WrongthinkMessage
    → Status
    → StatusCode
    → List WrongthinkMessage
    → Serving
after_sent sent msg status StatusCode.ok (m ∷ rest) = sending (sent ++ msg ∷ []) (counting m) rest
after_sent sent msg status code rest = sending sent (answered msg status) rest

abbrev pub advance_stream :
    Engine
    → ℕ
    → List WrongthinkMessage
    → List WrongthinkMessage
    → Sending
    → Service
    → Serving × Service
advance_stream e now sent rest (answered msg status) s =
    (after_sent sent msg status status.code rest, s)
advance_stream e now sent rest p s = as_sending sent rest (Messaging.advance e now p s)

-- One step of a thread, on the clock `now`.
unfoldable pub advance : Engine → ℕ → Serving → Service → Serving × Service
advance e now (creating p) s = on_service creating s (Users.advance e p s.db)
advance e now (making p) s = on_service making s (Channels.advance e p s.db)
advance e now (guarding p) s = on_service guarding s (Accounts.advance e now p s.db)
advance e now (checking p ps batches handled request) s =
    on_service (checked ps batches handled request) s (Lookups.advance e now p s.db)
advance e now (entering p) s = as_entering (Listeners.advance e p s)
advance e now (sending sent p rest) s = advance_stream e now sent rest p s
advance e now idle s = (idle, s)

abbrev pub Threads : Type 0
Threads = Pool Serving Service

-- A schedule names the thread that takes a step, and the clock.
abbrev pub run_threads : Engine → List (ℕ × ℕ) → Threads → Threads
run_threads e schedule s = run (advance e) schedule s

-- The program, when it has come to serve on its database, and calls have come, one to a thread.
abbrev pub called : Db → (ℕ → Incoming) → Threads
called db calls = record { shared = service_on db; thread = λ i. arrived (calls i) }
