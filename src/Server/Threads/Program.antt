-- ===== src/Server/Threads/Program.antt =====
-- The program from its start through any number of calls at once (wrongthink.cpp,
-- WrongthinkServiceImpl.cpp, Interceptors/Interceptor.cpp).
use wrongthink.Base.{ℕ, String, true, false, List, ◌≡◌, refl, Bool-cases, inl, inr, ◌⊎◌}
use wrongthink.Db.Engine.{Engine}
use wrongthink.Db.Tables.{Db}
use wrongthink.Db.Setup.Cleared.{empty_db}
use wrongthink.Db.Setup.Validated.{validated, validated-IsReady}
use wrongthink.Db.Users.Threads.Interleaved.{IsAdministered}
use wrongthink.Main.{served, main, is_argument, main-eq-main_result}
use wrongthink.Service.Soundness.{rebanned-IsSound}
use wrongthink.Service.Soundness.Handlers.{IsReliable}
use wrongthink.Service.Soundness.Runs.{new_service-IsServedSoundly}
use wrongthink.Server.{Incoming, service_on}
use wrongthink.Server.Threads.{run_threads, called}
use wrongthink.Server.Threads.Backed.{IsWorking}
use wrongthink.Server.Threads.Begun.{arrived-IsBacked}
use wrongthink.Server.Threads.Interleaved.{IsOrderly, run_threads-IsOrderly}
use wrongthink.Server.Threads.Tables.{IsSoundly}

empty-IsWorking : IsWorking (service_on empty_db)
empty-IsWorking = record {
  served = record {
    serving = new_service-IsServedSoundly.serving;
    sound =
        rebanned-IsSound empty_db.banned_users empty_db.banned_ips empty_db
          new_service-IsServedSoundly.sound (record { accounts = tt; addresses = tt });
  };
  administered = refl;
}

module _ (e : Engine) (reliable : IsReliable e) where
  called-IsOrderly :
      (schedule : List (ℕ × ℕ)) (db : Db) (calls : ℕ → Incoming)
      → IsWorking (service_on db)
      → IsOrderly (run_threads e schedule (called db calls))
  called-IsOrderly schedule db calls v =
      run_threads-IsOrderly e schedule (called db calls) reliable
        (record { good = v; backed = λ i. arrived-IsBacked (service_on db) (calls i) })

  -- On an engine that enforces references, gives new rows fresh keys and marks a row that was not
  -- found as null: the program without the argument `sqlite` comes to serve, and however the
  -- statements of any number of calls interleave from then on, with their checks by the interceptor,
  -- the tables and the live channels stay sound, but that an account may get several bans, and some
  -- account is an admin unless there is none. A thread has what it answers: `CreateUser` the key and
  -- the flag of the account of its name, and the creation of a channel or community the key of the
  -- one of its name; a call that bans carries the name and the token of an account and the name of
  -- an admin; a message that was accepted is in the table and in what its live channel holds; a
  -- listener waits at a channel of the table. This is so from any database with the argument
  -- `clear`, and otherwise from one that is sound in this way once its missing tables are there.
  pub program-IsOrderly :
      (argv : List String) (calls : ℕ → Incoming) (schedule : List (ℕ × ℕ)) (db : Db)
      → is_argument "sqlite" argv ≡ false
      → (is_argument "clear" argv ≡ true)
        ⊎ (IsSoundly (validated db) × IsAdministered (validated db).users.rows)
      → ((main e argv db).0 ≡ served)
        × IsOrderly (run_threads e schedule (called (main e argv db).1 calls))
  program-IsOrderly argv calls schedule db other (inl clearing) =
      rw (main-eq-main_result e argv db, other, clearing)
        (refl, called-IsOrderly schedule empty_db calls empty-IsWorking)
  program-IsOrderly argv calls schedule db other (inr (sound, administered)) =
      elim (Bool-cases (is_argument "clear" argv)) [
        | inl clearing ↦
            rw (main-eq-main_result e argv db, other, clearing)
              (refl, called-IsOrderly schedule empty_db calls empty-IsWorking)
        | inr plain ↦
            rw (main-eq-main_result e argv db, other, plain)
              (
                refl,
                called-IsOrderly schedule (validated db) calls (record {
                  served = record {
                    serving = record { ready = validated-IsReady db; coherent = tt };
                    sound = sound;
                  };
                  administered = administered;
                }),
              )
      ]
