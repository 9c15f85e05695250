-- ===== src/Server/Threads/Interleaved.antt =====
-- What the server guarantees in any interleaving of its threads (WrongthinkServiceImpl.cpp,
-- DB/DBPostgres.cpp, Interceptors/Interceptor.cpp).
use wrongthink.Base.{ℕ, Bool, List, [], ◌∷◌, ◌++◌, not_grown, ◌≡◌, All-append}
use wrongthink.Concurrent.{IsBackedPool, IsStepped, run-IsBackedPool}
use wrongthink.Proto.{StatusCode, Status, WrongthinkMessage}
use wrongthink.Db.Engine.{Engine}
use wrongthink.Db.Users.Threads as Users
use wrongthink.Db.Users.Threads.{Creating}
use wrongthink.Db.Users.Threads.Interleaved as Creations
use wrongthink.Db.Channels.Threads as Channels
use wrongthink.Db.Bans.Lookups as Lookups
use wrongthink.Db.Bans.Lookups.{
  Looking, selecting_ip, deleting_ip, selecting_user, deleting_user, checking_ip, clearing_ip,
  inserting_ip, looked,
}
use wrongthink.Service.Soundness.Runs.{Request}
use wrongthink.Service.{Service}
use wrongthink.Service.Messaging.Threads as Messaging
use wrongthink.Service.Messaging.Threads.{
  Sending, counting, fetching, emplacing, broadcasting, inserting, answered,
}
use wrongthink.Service.Messaging.Threads.Accounts.{advance-users}
use wrongthink.Service.Messaging.Threads.Backed as MessagingBacked
use wrongthink.Service.Messaging.Threads.Backed.{IsLater, same-IsLater}
use wrongthink.Service.Messaging.Threads.Interleaved as MessagingInterleaved
use wrongthink.Service.Messaging.Entering as Listeners
use wrongthink.Service.Messaging.Entering.{Entering}
use wrongthink.Service.Messaging.Entering.Interleaved as ListenersInterleaved
use wrongthink.Service.Messaging.Entering.Interleaved.{IsEntered}
use wrongthink.Service.Soundness.Handlers.{IsReliable, IsServedWith}
use wrongthink.Server.Threads.{
  Serving, checking, idle, checked, creating, making, guarding, entering, sending, as_entering,
  as_sending, after_sent, advance, Threads, run_threads,
}
use wrongthink.Server.Threads.Backed.{
  IsTaken, HasLooseBans, IsWorking, IsBacked, IsBacked-later, AreKept, AreKept-later,
}
use wrongthink.Server.Threads.Tables.{on_service-IsStepped, looking-IsRun, creating-IsRun}
use wrongthink.Server.Threads.Guards.{guarding_step}
use wrongthink.Server.Threads.Begun.{checked-IsBacked}
use wrongthink.Server.Threads.Places.{making-Makes}

module _ (e : Engine) (reliable : IsReliable e) (now : ℕ) (s : Service) (v : IsWorking s) where
  creating_step :
      (p : Creating) → IsBacked s (creating p) → IsTaken s (advance e now (creating p) s)
  unfolding advance
  creating_step p backed =
      let st = Creations.advance_lem e s.db v.served.serving.ready v.administered p backed in
      on_service-IsStepped creating s (Users.advance e p s.db) v
        (creating-IsRun s.db v.served.serving.ready v.served.sound v.administered e reliable.fresh p
          st.good.administered)
        st.backed

  making_step :
      (p : Channels.Making) → IsBacked s (making p) → IsTaken s (advance e now (making p) s)
  unfolding advance
  making_step p backed =
      let (run, made) =
        making-Makes e reliable s.db v.served.serving.ready v.served.sound v.administered p
          backed in
      on_service-IsStepped making s (Channels.advance e p s.db) v run made

  -- A check, and what comes behind it.
  checking_step :
      (p : Looking) (ps : List Looking) (batches : List (List Looking)) (handled : Bool)
      (request : Request)
      → IsTaken s (advance e now (checking p ps batches handled request) s)
  unfolding advance
  checking_step p ps batches handled request =
      let r = Lookups.advance e now p s.db in
      on_service-IsStepped (checked ps batches handled request) s r v
        (looking-IsRun s.db v.served.serving.ready v.served.sound v.administered e now p)
        (checked-IsBacked (record s { db = r.1 }) ps batches handled request r.0)

  -- A step that leaves the tables alone.
  entered : (r : Entering × Service) → IsEntered HasLooseBans s r → IsTaken s (as_entering r)
  entered (p, t) h = rw (h.same) (record {
    good = record { served = h.served; administered = v.administered };
    backed = ListenersInterleaved.IsBacked-same s h.map p h.backed;
    later = record {
      users = not_grown _;
      communities = not_grown _;
      channels = not_grown _;
      still = λ uid h. h;
      stored = not_grown _;
      handed = h.handed;
    };
  })

  entering_step :
      (p : Entering) → IsBacked s (entering p) → IsTaken s (advance e now (entering p) s)
  unfolding advance
  entering_step p h =
      entered (Listeners.advance e p s)
        (ListenersInterleaved.advance-IsEntered e reliable s v.served p h)

  module _ (sent rest : List WrongthinkMessage) (kept : AreKept s sent) where
    -- A step of the message that is sent.
    sent_step :
        (r : Sending × Service)
        → IsStepped (IsServedWith HasLooseBans) MessagingBacked.IsBacked IsLater s r
        → r.1.db.users.rows ≡ s.db.users.rows
        → IsTaken s (as_sending sent rest r)
    sent_step (p, t) st same = record {
      good = record { served = st.good; administered = rw same v.administered };
      backed = (AreKept-later s t st.later sent kept, st.backed);
      later = st.later;
    }

    advanced :
        (p : Sending)
        → MessagingBacked.IsBacked s p
        → IsTaken s (as_sending sent rest (Messaging.advance e now p s))
    advanced p h =
        sent_step (Messaging.advance e now p s)
          (MessagingInterleaved.advance-IsAdvanced e reliable now s v.served p h)
          (advance-users e now s v.served.serving.ready p)

    same_state : (p : Serving) → IsBacked s p → IsTaken s (p, s)
    same_state p h = record { good = v; backed = h; later = same-IsLater s }

    -- The stream reads the next message, or ends.
    read_step :
        (msg : WrongthinkMessage) (status : Status) (code : StatusCode)
        (more : List WrongthinkMessage)
        → MessagingBacked.IsKept s msg code
        → MessagingBacked.IsKept s msg status.code
        → IsTaken s (after_sent sent msg status code more, s)
    read_step msg status StatusCode.ok (m ∷ more) now_kept h =
        same_state (sending (sent ++ msg ∷ []) (counting m) more)
          (All-append _ sent (msg ∷ []) kept (now_kept, tt), tt)
    read_step msg status StatusCode.ok [] now_kept h =
        same_state (sending sent (answered msg status) []) (kept, h)
    read_step msg status StatusCode.invalid_argument more now_kept h =
        same_state (sending sent (answered msg status) more) (kept, h)
    read_step msg status StatusCode.unauthenticated more now_kept h =
        same_state (sending sent (answered msg status) more) (kept, h)
    read_step msg status StatusCode.internal more now_kept h =
        same_state (sending sent (answered msg status) more) (kept, h)

    sending_step :
        (p : Sending)
        → MessagingBacked.IsBacked s p
        → IsTaken s (advance e now (sending sent p rest) s)
    unfolding advance
    sending_step (counting msg) h = advanced (counting msg) h
    sending_step (fetching msg) h = advanced (fetching msg) h
    sending_step (emplacing msg name) h = advanced (emplacing msg name) h
    sending_step (broadcasting msg) h = advanced (broadcasting msg) h
    sending_step (inserting msg) h = advanced (inserting msg) h
    sending_step (answered msg status) h = read_step msg status status.code rest h h

  idle_step : IsTaken s (advance e now idle s)
  unfolding advance
  idle_step = record { good = v; backed = tt; later = same-IsLater s }

  advance-IsTaken : (p : Serving) → IsBacked s p → IsTaken s (advance e now p s)
  advance-IsTaken (creating p) h = creating_step p h
  advance-IsTaken (making p) h = making_step p h
  advance-IsTaken (guarding p) h = guarding_step e now s v p h
  advance-IsTaken (checking p ps batches handled request) h =
      checking_step p ps batches handled request
  advance-IsTaken idle h = idle_step
  advance-IsTaken (entering p) h = entering_step p h
  advance-IsTaken (sending sent p rest) (kept, h) = sending_step sent rest kept p h

-- The server works, and each thread is backed.
abbrev pub IsOrderly : Threads → Type 0
IsOrderly s = IsBackedPool IsWorking IsBacked s

pub run_threads-IsOrderly :
    (e : Engine) (schedule : List (ℕ × ℕ)) (s : Threads)
    → IsReliable e
    → IsOrderly s
    → IsOrderly (run_threads e schedule s)
run_threads-IsOrderly e schedule s reliable v =
    run-IsBackedPool (advance e) IsWorking IsBacked IsLater
      (λ now p t g b. advance-IsTaken e reliable now t g p b)
      (λ before after p l b. IsBacked-later before after l p b) schedule s v
