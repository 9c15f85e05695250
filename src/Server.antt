-- ===== src/Server.antt =====
-- The whole server: `RunServer` and `main` of wrongthink.cpp, with what the service, the interceptor
-- and the credential processor that it registers do with each call.
pub mod Whole
pub mod Threads
use wrongthink.Base.{ℕ, String, Bool, true, false, List, [], ◌∷◌, if◌then◌else◌}
use wrongthink.Proto.{StatusCode, Status}
use wrongthink.Auth.{Metadata, Processed, process}
use wrongthink.Interceptor as Interceptor
use wrongthink.Interceptor.{HookPoints, Call, intercept}
use wrongthink.Db.Engine.{Engine}
use wrongthink.Db.Tables.{Db}
use wrongthink.Main.{Started, exited, served, main}
use wrongthink.Service.{Service}
use wrongthink.Service.Soundness.Runs.{Request, handle}

-- A call as gRPC hands it over: the peer's address, the credentials, the fields of the request
-- message, the batches of hook points with the clocks that they read, whether gRPC goes on to the
-- handler after them (it may not, where one threw), and what the handler is called with.
pub record Incoming : Type 0 where
  pub peer : String
  pub metadata : Metadata
  pub fields : Interceptor.Request
  pub batches : List (HookPoints × ℕ × ℕ)
  pub handled : Bool
  pub request : Request

abbrev pub nothing_processed : Processed
nothing_processed = record { properties = []; consumed = []; response = [] }

abbrev pub is_ok : StatusCode → Bool
is_ok StatusCode.ok = true
is_ok _ = false

-- The interceptor of the call, on each batch. What it throws is gRPC's.
unfoldable pub intercept_all :
    Engine → String → Interceptor.Request → List (HookPoints × ℕ × ℕ) → Call → Call
intercept_all e peer fields [] c = c
intercept_all e peer fields ((hooks, now, later) ∷ batches) c =
    intercept_all e peer fields batches (intercept e now later peer fields hooks c).1

abbrev pub intercepted : Engine → Incoming → Service → Service
intercepted e i s = record s {
  db =
      (intercept_all e i.peer i.fields i.batches
        (record { db = s.db; cancelled = false; proceeded = false })).db;
}

-- One call: the credential processor, the interceptor, the handler.
pub serve : Engine → Incoming → Service → Service
serve e i s =
    if is_ok (process i.metadata nothing_processed).0.code
    then (if i.handled then handle e i.request (intercepted e i s) else intercepted e i s)
    else s

-- `RunServer`: a new service on the database, and the calls until the process is killed.
unfoldable pub run_server : Engine → List Incoming → Service → Service
run_server e [] s = s
run_server e (i ∷ calls) s = run_server e calls (serve e i s)

-- WrongthinkServiceImpl::WrongthinkServiceImpl
abbrev pub service_on : Db → Service
service_on db = record { db = db; channel_map = [] }

abbrev pub serving_calls : Engine → List Incoming → Started × Db → Started × Service
serving_calls e calls (served, db) = (served, run_server e calls (service_on db))
serving_calls e calls (exited code, db) = (exited code, service_on db)

-- The program with its arguments, on a database, with the calls that come.
pub program : Engine → List String → List Incoming → Db → Started × Service
program e argv calls db = serving_calls e calls (main e argv db)
