-- ===== src/Server/Threads/Guards.antt =====
-- The steps of threads that ban an account (`BanUser`, WrongthinkServiceImpl.cpp).
use wrongthink.Base.{ℕ, String, false, any, refl, ap, ◌∙◌, ◌&&◌, Bool-cases, inl, inr}
use wrongthink.Proto.{BanUserRequest, unauthenticated_status}
use wrongthink.Db.Engine.{Engine}
use wrongthink.Db.Tables.{User, Db}
use wrongthink.Db.Users.{named, matches}
use wrongthink.Db.Users.Accounts.{is_user_valid_ready, is_user_admin_ready}
use wrongthink.Db.Bans.Threads as Bans
use wrongthink.Db.Bans.Threads.{Banning}
use wrongthink.Db.Bans.Threads.Backed as BansBacked
use wrongthink.Db.Bans.Threads.Interleaved as BansInterleaved
use wrongthink.Service.{Service}
use wrongthink.Service.Accounts.Guarding as Accounts
use wrongthink.Service.Accounts.Guarding.{Guarding, guarded, validating, admitting, banning, denied}
use wrongthink.Server.Threads.{guarding, advance}
use wrongthink.Server.Threads.Backed.{IsTaken, IsWorking, IsGuarded, HasLogin}
use wrongthink.Server.Threads.Tables.{IsRun, on_service-IsStepped, nothing-IsRun, banned-IsRun}

module _ (e : Engine) (now : ℕ) (s : Service) (v : IsWorking s) where
  -- A statement of `BanUser` that changes nothing.
  abbrev nothing_run : IsRun s.db s.db
  nothing_run = nothing-IsRun s.db v.served.serving.ready v.served.sound v.administered

  guarded_same : (p : Guarding) → IsGuarded s.db p → IsTaken s (guarding p, s)
  guarded_same p backed = on_service-IsStepped guarding s (p, s.db) v nothing_run backed

  validating_step :
      (uname token : String) (request : BanUserRequest)
      → IsTaken s (advance e now (guarding (validating uname token request)) s)
  unfolding advance Accounts.advance
  validating_step uname token request =
      elim (Bool-cases (any (matches uname token) s.db.users.rows)) [
        | inl valid ↦
            rw (is_user_valid_ready s.db v.served.serving.ready uname token, valid)
              (guarded_same (admitting uname token request) valid)
        | inr invalid ↦
            rw (is_user_valid_ready s.db v.served.serving.ready uname token, invalid)
              (guarded_same (denied (unauthenticated_status "Invalid user")) tt)
      ]

  admitting_step :
      (uname token : String) (request : BanUserRequest)
      → HasLogin s.db uname token
      → IsTaken s (advance e now (guarding (admitting uname token request)) s)
  unfolding advance Accounts.advance
  admitting_step uname token request login =
      elim (Bool-cases (any (λ (u : User). named uname u && u.admin) s.db.users.rows)) [
        | inl admin ↦
            rw (is_user_admin_ready s.db v.served.serving.ready uname, admin)
              (guarded_same (banning uname token (Banning.finding request.uname request.days))
                (login, admin, λ u found. refl))
        | inr other ↦
            rw (is_user_admin_ready s.db v.served.serving.ready uname, other)
              (guarded_same (denied (unauthenticated_status "Invalid permission")) tt)
      ]

  no_one_spared : BansBacked.IsGood (λ j. false) s.db s.db
  no_one_spared = record {
    ready = v.served.serving.ready;
    people = refl;
    accounts = v.served.sound.bans.accounts;
    kept = λ j h. refl;
  }

  banning_step :
      (uname token : String) (p : Banning)
      → IsGuarded s.db (banning uname token p)
      → IsTaken s (advance e now (guarding (banning uname token p)) s)
  unfolding advance Accounts.advance
  banning_step uname token p (login, admin, backed) =
      let st = BansInterleaved.advance_lem e now (λ j. false) s.db s.db no_one_spared p backed in
      let rows = ap (λ (d : Db). d.users.rows) st.later.same in
      on_service-IsStepped guarding s
        (banning uname token (Bans.advance e now p s.db).0, (Bans.advance e now p s.db).1) v
        (banned-IsRun s.db v.served.serving.ready v.served.sound v.administered _ st.later.bans
          st.later.exists st.later.same st.good.accounts st.later.still)
        (
          ap (any (matches uname token)) rows ∙ login,
          ap (any (λ (u : User). named uname u && u.admin)) rows ∙ admin,
          st.backed,
        )

  pub guarding_step : (p : Guarding) → IsGuarded s.db p → IsTaken s (advance e now (guarding p) s)
  unfolding advance Accounts.advance
  guarding_step (validating uname token request) h = validating_step uname token request
  guarding_step (admitting uname token request) h = admitting_step uname token request h
  guarding_step (banning uname token p) h = banning_step uname token p h
  guarding_step (denied status) h = guarded_same (denied status) tt
