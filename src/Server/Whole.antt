-- ===== src/Server/Whole.antt =====
-- The program from its start through any calls (wrongthink.cpp, Interceptors/Interceptor.cpp,
-- WrongthinkServiceImpl.cpp).
use wrongthink.Base.{
  ap, ℕ, String, true, false, List, [], ◌∷◌, ◌≡◌, refl, sym, Bool-cases, inl, inr, ◌⊎◌,
}
use mathlib.Core.Path.{subst}
use wrongthink.Auth.{process}
use wrongthink.Interceptor as Interceptor
use wrongthink.Interceptor.{HookPoints, Call, intercept}
use wrongthink.Interceptor.Framed.{intercept-FramesOn}
use wrongthink.Db.Engine.{Engine}
use wrongthink.Db.Bans.Sound.{HasSoundBans}
use wrongthink.Db.Tables.{User, BannedUser, BannedIp, Table, Db}
use wrongthink.Db.Bans.Framing.{IsFramed, same-IsFramed, then-IsFramed}
use wrongthink.Db.Setup.Validated.{validated, validated-IsReady}
use wrongthink.Main.{served, is_argument, main-eq-main_result}
use wrongthink.Service.{Service}
use wrongthink.Service.Soundness.{IsSound, rebanned, rebanned-IsReady, rebanned-IsSound}
use wrongthink.Service.Soundness.Handlers.{IsServedSoundly, IsReliable}
use wrongthink.Service.Soundness.Runs.{handle-IsServedSoundly, new_service-IsServedSoundly}
use wrongthink.Server.{Incoming, intercept_all, intercepted, serve, run_server, service_on, program}

framed-eq : (a b : Db) → IsFramed a b → rebanned b.banned_users b.banned_ips a ≡ b
framed-eq a b f =
    rw (sym f.users, sym f.communities, sym f.channels, sym f.message, sym f.control_message) refl

module _ (s : Service) (v : IsServedSoundly s) where
  rebanned-IsServedSoundly :
      (t : Table BannedUser) (i : Table BannedIp)
      → t.exists ≡ s.db.banned_users.exists
      → i.exists ≡ s.db.banned_ips.exists
      → HasSoundBans s.db.users.rows t.rows i.rows
      → IsServedSoundly (record s { db = rebanned t i s.db })
  rebanned-IsServedSoundly t i there thei kept = record {
    serving = record {
      ready = rebanned-IsReady t i s.db v.serving.ready there thei;
      coherent = v.serving.coherent;
    };
    sound = rebanned-IsSound t i s.db v.sound kept;
  }

  framed-IsServedSoundly :
      (after : Db) → IsFramed s.db after → IsServedSoundly (record s { db = after })
  framed-IsServedSoundly after f =
      subst (λ db. IsServedSoundly (record s { db = db })) (framed-eq s.db after f)
        (rebanned-IsServedSoundly after.banned_users after.banned_ips f.banned_users f.banned_ips (
          subst (λ users. HasSoundBans users after.banned_users.rows after.banned_ips.rows)
            (ap (λ (t : Table User). t.rows) f.users) (f.sound v.sound.bans)))

intercept_all-IsFramed :
    (e : Engine) (peer : String) (fields : Interceptor.Request)
    (batches : List (HookPoints × ℕ × ℕ)) (c : Call)
    → IsFramed c.db (intercept_all e peer fields batches c).db
unfolding intercept_all
intercept_all-IsFramed e peer fields [] c = same-IsFramed c.db
intercept_all-IsFramed e peer fields ((hooks, now, later) ∷ batches) c =
    then-IsFramed (intercept-FramesOn e now later peer fields hooks c)
      (intercept_all-IsFramed e peer fields batches (intercept e now later peer fields hooks c).1)

module _ (e : Engine) (reliable : IsReliable e) where
  serve-IsServedSoundly :
      (i : Incoming) (s : Service) → IsServedSoundly s → IsServedSoundly (serve e i s)
  unfolding serve process
  serve-IsServedSoundly i s v =
      let kept = framed-IsServedSoundly s v _ (
        intercept_all-IsFramed e i.peer i.fields i.batches
          (record { db = s.db; cancelled = false; proceeded = false })) in
      elim (Bool-cases i.handled) [
        | inl goes_on ↦
            rw goes_on (handle-IsServedSoundly e reliable i.request (intercepted e i s) kept)
        | inr stops ↦ rw stops kept
      ]

  run_server-IsServedSoundly :
      (calls : List Incoming) (s : Service)
      → IsServedSoundly s
      → IsServedSoundly (run_server e calls s)
  unfolding run_server
  run_server-IsServedSoundly [] s v = v
  run_server-IsServedSoundly (i ∷ calls) s v =
      run_server-IsServedSoundly calls (serve e i s) (serve-IsServedSoundly i s v)

  -- On an engine that enforces references, gives new rows fresh keys and marks a row that was not
  -- found as null, the program without the argument `sqlite` always comes to serve, and through any
  -- calls, with the bans that the interceptor looks up, sets and deletes before each handler, the
  -- tables and the live channels stay sound. This is so from any database with the argument
  -- `clear`, and otherwise from one that is sound once its missing tables are there.
  pub program-IsServedSoundly :
      (argv : List String) (calls : List Incoming) (db : Db)
      → is_argument "sqlite" argv ≡ false
      → (is_argument "clear" argv ≡ true) ⊎ IsSound (validated db)
      → ((program e argv calls db).0 ≡ served) × IsServedSoundly (program e argv calls db).1
  unfolding program
  program-IsServedSoundly argv calls db other (inl clearing) =
      rw (main-eq-main_result e argv db, other, clearing)
        (refl, run_server-IsServedSoundly calls _ new_service-IsServedSoundly)
  program-IsServedSoundly argv calls db other (inr sound) =
      elim (Bool-cases (is_argument "clear" argv)) [
        | inl clearing ↦
            rw (main-eq-main_result e argv db, other, clearing)
              (refl, run_server-IsServedSoundly calls _ new_service-IsServedSoundly)
        | inr plain ↦
            rw (main-eq-main_result e argv db, other, plain)
              (
                refl,
                run_server-IsServedSoundly calls (service_on (validated db)) (record {
                  serving = record { ready = validated-IsReady db; coherent = tt };
                  sound = sound;
                }),
              )
      ]
