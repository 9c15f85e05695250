-- ===== src/Db/Bans/Lookups.antt =====
-- Calls of `isIPBanned` and `isUserBanned` (DB/DBPostgres.cpp) that run at once, each on a session of
-- its own: between the statements of one call, those of others run.
pub mod Effects
use wrongthink.Base.{
  ℕ, String, Bool, true, false, Option, none, some, ◌≡◌, refl, if◌then◌else◌, Bool-cases, inl, inr,
}
use wrongthink.Base.Int.{ℤ, pos, ltb_ℤ}
use wrongthink.Action.{Action, Exception, Outcome, ok, thrown, pure, and_then}
use wrongthink.Db.Engine.{Engine}
use wrongthink.Db.Tables.{Db}
use wrongthink.Db.Bans.{
  select_ip, delete_ip, ip_verdict, is_ip_banned, select_user, delete_user, insert_ip, user_verdict,
  is_user_banned,
}

-- The statement that a call runs next, with its variables, or how it ended. The last three are those
-- of the `isIPBanned` that `isUserBanned` calls, and of the insert behind it.
pub data Looking : Type 0 where
  selecting_ip deleting_ip : String → Looking
  selecting_user : String → String → Looking
  deleting_user : String → Looking
  checking_ip clearing_ip inserting_ip : String → ℤ → Looking
  looked : Bool → Looking
  failed : Exception → Looking

abbrev pub after : {A : Type 0} → (A → Looking) → Outcome A × Db → Looking × Db
after f (ok a, db) = (f a, db)
after f (thrown x, db) = (failed x, db)

-- What comes after the select, whose answer is compared with the clock `now`.
abbrev pub ip_found : ℕ → String → Option ℤ → Looking
ip_found now ip none = looked false
ip_found now ip (some te) = if ltb_ℤ te (pos now) then deleting_ip ip else looked true

abbrev pub user_found : ℕ → String → String → Option ℤ → Looking
user_found now uname ip none = looked false
user_found now uname ip (some te) =
    if ltb_ℤ te (pos now) then deleting_user uname else checking_ip ip te

abbrev pub ip_checked : ℕ → String → ℤ → Option ℤ → Looking
ip_checked now ip date none = inserting_ip ip date
ip_checked now ip date (some te) = if ltb_ℤ te (pos now) then clearing_ip ip date else looked true

-- One statement.
unfoldable pub advance : Engine → ℕ → Looking → Db → Looking × Db
advance e now (selecting_ip ip) db = after (ip_found now ip) (select_ip e ip db)
advance e now (deleting_ip ip) db = after (λ done. looked false) (delete_ip ip db)
advance e now (selecting_user uname ip) db =
    after (user_found now uname ip) (select_user e uname db)
advance e now (deleting_user uname) db = after (λ done. looked false) (delete_user uname db)
advance e now (checking_ip ip date) db = after (ip_checked now ip date) (select_ip e ip db)
advance e now (clearing_ip ip date) db = after (λ done. inserting_ip ip date) (delete_ip ip db)
advance e now (inserting_ip ip date) db = after (λ done. looked true) (insert_ip e ip date db)
advance e now (looked b) db = (looked b, db)
advance e now (failed x) db = (failed x, db)

abbrev next : Engine → ℕ → Looking × Db → Looking × Db
next e now (p, db) = advance e now p db

module _ (e : Engine) (now : ℕ) where
  after_looked :
      (b : Bool) (r : Outcome (Unit {0}) × Db)
      → after (λ done. looked b) r ≡ after looked (and_then (λ done. pure b) r)
  after_looked b (ok done, db) = refl
  after_looked b (thrown x, db) = refl

  ip_steps :
      (ip : String) (te : ℤ) (expired : Bool) (db : Db)
      → next e now (if expired then deleting_ip ip else looked true, db)
        ≡ after looked (
            (if expired then (λ d. and_then (λ done. pure false) (delete_ip ip d)) else pure true)
              db)
  unfolding advance
  ip_steps ip te true db = after_looked false (delete_ip ip db)
  ip_steps ip te false db = refl

  after_ip :
      (ip : String) (r : Outcome (Option ℤ) × Db)
      → next e now (after (ip_found now ip) r) ≡ after looked (and_then (ip_verdict now ip) r)
  unfolding advance ip_verdict
  after_ip ip (ok none, db) = refl
  after_ip ip (ok (some te), db) = ip_steps ip te (ltb_ℤ te (pos now)) db
  after_ip ip (thrown x, db) = refl

  -- The statements of a call, run one after the other with no other call between them, do to the
  -- tables and answer just what `isIPBanned` does.
  pub two_steps-eq-is_ip_banned :
      (ip : String) (db : Db)
      → next e now (advance e now (selecting_ip ip) db) ≡ after looked (is_ip_banned e now ip db)
  unfolding advance is_ip_banned
  two_steps-eq-is_ip_banned ip db = after_ip ip (select_ip e ip db)

-- What `isUserBanned` does once it knows whether the address is banned.
abbrev then_insert : Engine → String → ℤ → Bool → Db → Outcome Bool × Db
then_insert e ip date banned db =
    (if banned then pure true else (λ d. and_then (λ done. pure true) (insert_ip e ip date d))) db

-- What `isUserBanned` does with a ban that it has found.
abbrev if_expired : Engine → ℕ → String → String → ℤ → Bool → Action Db Bool
if_expired e later uname ip date true = λ d. and_then (λ done. pure false) (delete_user uname d)
if_expired e later uname ip date false =
    λ d. and_then (then_insert e ip date) (is_ip_banned e later ip d)

module _ (e : Engine) (now later third fourth : ℕ) where
  abbrev two_more : Looking × Db → Looking × Db
  two_more p = next e fourth (next e third p)

  after_insert :
      (r : Outcome (Unit {0}) × Db)
      → next e fourth (after (λ done. looked true) r)
        ≡ after looked (and_then (λ done. pure true) r)
  unfolding advance
  after_insert (ok done, db) = refl
  after_insert (thrown x, db) = refl

  after_clear :
      (ip : String) (date : ℤ) (r : Outcome (Unit {0}) × Db)
      → next e fourth (after (λ done. inserting_ip ip date) r)
        ≡ after looked (and_then (then_insert e ip date) (and_then (λ done. pure false) r))
  unfolding advance
  after_clear ip date (ok done, db) = after_looked e later true (insert_ip e ip date db)
  after_clear ip date (thrown x, db) = refl

  check_steps :
      (ip : String) (date : ℤ) (expired : Bool) (db : Db)
      → two_more (if expired then clearing_ip ip date else looked true, db)
        ≡ after looked (
            and_then (then_insert e ip date) (
              (if expired then (λ d. and_then (λ done. pure false) (delete_ip ip d)) else pure true)
                db))
  unfolding advance
  check_steps ip date true db = after_clear ip date (delete_ip ip db)
  check_steps ip date false db = refl

  after_check :
      (ip : String) (date : ℤ) (r : Outcome (Option ℤ) × Db)
      → two_more (after (ip_checked later ip date) r)
        ≡ after looked (and_then (then_insert e ip date) (and_then (ip_verdict later ip) r))
  unfolding advance ip_verdict
  after_check ip date (ok none, db) = after_insert (insert_ip e ip date db)
  after_check ip date (ok (some te), db) = check_steps ip date (ltb_ℤ te (pos later)) db
  after_check ip date (thrown x, db) = refl

  after_delete :
      (r : Outcome (Unit {0}) × Db)
      → two_more (after (λ done. looked false) r) ≡ after looked (and_then (λ done. pure false) r)
  unfolding advance
  after_delete (ok done, db) = refl
  after_delete (thrown x, db) = refl

  user_steps :
      (uname ip : String) (te : ℤ) (expired : Bool) (db : Db)
      → two_more (next e later (if expired then deleting_user uname else checking_ip ip te, db))
        ≡ after looked (if_expired e later uname ip te expired db)
  unfolding advance is_ip_banned
  user_steps uname ip te true db = after_delete (delete_user uname db)
  user_steps uname ip te false db = after_check ip te (select_ip e ip db)

  after_user :
      (uname ip : String) (r : Outcome (Option ℤ) × Db)
      → two_more (next e later (after (user_found now uname ip) r))
        ≡ after looked (and_then (user_verdict e now later uname ip) r)
  unfolding advance user_verdict
  after_user uname ip (ok none, db) = refl
  after_user uname ip (ok (some te), db) = elim (Bool-cases (ltb_ℤ te (pos now))) [
    | inl expired ↦ rw expired (user_steps uname ip te true db)
    | inr active ↦ rw active (user_steps uname ip te false db)
  ]
  after_user uname ip (thrown x, db) = refl

  -- The same for `isUserBanned`, which runs four statements at most.
  pub four_steps-eq-is_user_banned :
      (uname ip : String) (db : Db)
      → two_more (next e later (advance e now (selecting_user uname ip) db))
        ≡ after looked (is_user_banned e now later uname ip db)
  unfolding advance is_user_banned
  four_steps-eq-is_user_banned uname ip db = after_user uname ip (select_user e uname db)
