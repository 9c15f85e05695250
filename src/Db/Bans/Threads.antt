-- ===== src/Db/Bans/Threads.antt =====
-- Calls of `banUser` (DB/DBPostgres.cpp, DB/DBSQLite.cpp) that run at once, each on a session of its
-- own: between the statements of one call, those of others run.
pub mod Backed
pub mod Asked
pub mod Interleaved
use mathlib.Core.List.{map-append}
use wrongthink.Base.{
  ℕ, String, Bool, true, false, Option, none, some, List, [], ◌∷◌, ◌++◌, any, find?, ◌≡◌, refl, ap,
  ◌∙◌, arith, if◌then◌else◌, ==_refl, any-find?, filter, filter-append,
}
use wrongthink.Base.Int.{ℤ, pos}
use wrongthink.Action.{Exception, Outcome, ok, thrown, user_not_found, and_then}
use wrongthink.Concurrent.{Pool, two, run}
use wrongthink.Db.Engine.{Engine}
use wrongthink.Db.Tables.{User, BannedUser, Db}
use wrongthink.Db.Sql.Schema.{IsReady}
use wrongthink.Db.Users.{named, has_id, user_id_by_name}
use wrongthink.Db.Users.Accounts.{user_id_by_name_ready}
use wrongthink.Db.Bans.{
  bans_id, ban_offset, has_ban_entry, extend_ban, insert_ban, ban_id, ban_user,
}
use wrongthink.Db.Bans.Rows.{no_bans}
use wrongthink.Db.Bans.Banning.{bans_of}
use wrongthink.Db.Bans.Writes.{with_ban, has_ban_entry_ready, insert_ban_ready}

-- The statement that a call runs next, or how it ended: of which account, where it has banned one.
pub data Banning : Type 0 where
  finding : String → ℤ → Banning
  checking extending inserting : ℕ → ℤ → Banning
  banned : ℕ → Banning
  failed : Exception → Banning

abbrev pub after : {A : Type 0} → (A → Banning) → Outcome A × Db → Banning × Db
after f (ok a, db) = (f a, db)
after f (thrown x, db) = (failed x, db)

abbrev pub found_at : ℤ → Option ℕ → Banning
found_at days none = failed user_not_found
found_at days (some uid) = checking uid days

-- One statement, on the clock `now`.
unfoldable pub advance : Engine → ℕ → Banning → Db → Banning × Db
advance e now (finding uname days) db =
    after (found_at (ban_offset days)) (user_id_by_name uname db)
advance e now (checking uid days) db =
    after (λ there. if there then extending uid days else inserting uid days) (has_ban_entry uid db)
advance e now (extending uid days) db = after (λ done. banned uid) (extend_ban e now uid days db)
advance e now (inserting uid days) db = after (λ done. banned uid) (insert_ban e now uid days db)
advance e now (banned uid) db = (banned uid, db)
advance e now (failed x) db = (failed x, db)

-- What a call that has ended answers.
abbrev pub answer : Banning × Db → Option (Outcome (Unit {0})) × Db
answer (banned uid, db) = (some (ok tt), db)
answer (failed x, db) = (some (thrown x), db)
answer (p, db) = (none, db)

abbrev pub answered : Outcome (Unit {0}) × Db → Option (Outcome (Unit {0})) × Db
answered (o, db) = (some o, db)

abbrev next : Engine → ℕ → Banning × Db → Banning × Db
next e now (p, db) = advance e now p db

module _ (e : Engine) (now : ℕ) where
  after_write :
      (uid : ℕ) (r : Outcome (Unit {0}) × Db) → answer (after (λ done. banned uid) r) ≡ answered r
  after_write uid (ok tt, db) = refl
  after_write uid (thrown x, db) = refl

  after_check :
      (uid : ℕ) (days : ℤ) (r : Outcome Bool × Db)
      → answer
          (next e now (after (λ there. if there then extending uid days else inserting uid days) r))
        ≡ answered (
            and_then
              (λ there. if there then extend_ban e now uid days else insert_ban e now uid days)
              r)
  unfolding advance
  after_check uid days (ok true, db) = after_write uid (extend_ban e now uid days db)
  after_check uid days (ok false, db) = after_write uid (insert_ban e now uid days db)
  after_check uid days (thrown x, db) = refl

  after_find :
      (days : ℤ) (r : Outcome (Option ℕ) × Db)
      → answer (next e now (next e now (after (found_at days) r)))
        ≡ answered (and_then (ban_id e now days) r)
  unfolding advance ban_id
  after_find days (ok none, db) = refl
  after_find days (ok (some uid), db) = after_check uid days (has_ban_entry uid db)
  after_find days (thrown x, db) = refl

  -- The three statements of a call, run one after the other with no other call between them, do to
  -- the tables and answer just what `banUser` does.
  pub three_steps-eq-ban_user :
      (uname : String) (days : ℤ) (db : Db)
      → answer (next e now (next e now (advance e now (finding uname days) db)))
        ≡ answered (ban_user e now uname days db)
  unfolding advance ban_user
  three_steps-eq-ban_user uname days db = after_find (ban_offset days) (user_id_by_name uname db)

abbrev pub Bans : Type 0
Bans = Pool Banning Db

-- A schedule names the call that runs a statement, and the clock.
abbrev pub run_bans : Engine → List (ℕ × ℕ) → Bans → Bans
run_bans e schedule s = run (advance e) schedule s

-- Each call runs a statement in turn.
abbrev pub in_turn : ℕ → List (ℕ × ℕ)
in_turn now = (0, now) ∷ (1, now) ∷ (0, now) ∷ (1, now) ∷ (0, now) ∷ (1, now) ∷ []

bans_of-with_ban :
    (e : Engine) (uid : ℕ) (expire : ℤ) (db : Db)
    → bans_of uid (with_ban e uid expire db) ≡ bans_of uid db ++ expire ∷ []
unfolding filter
bans_of-with_ban e uid expire db =
    rw (filter-append (bans_id uid) db.banned_users.rows _, ==_refl uid)
      (map-append (λ (b : BannedUser). b.expire) (filter (bans_id uid) db.banned_users.rows) _)

bans_of-free :
    (uid : ℕ) (db : Db) → any (bans_id uid) db.banned_users.rows ≡ false → bans_of uid db ≡ []
bans_of-free uid db h = rw (no_bans uid db.banned_users.rows h) refl

module _ (e : Engine) (now : ℕ) (uname : String) (db : Db) (ready : IsReady db) (u : User)
    (found : find? (named uname) db.users.rows ≡ some u) where
  advance_found :
      (days : ℤ)
      → advance e now (finding uname days) db ≡ (checking u.user_id (ban_offset days), db)
  unfolding advance
  advance_found days = rw (user_id_by_name_ready db ready uname, found)

  advance_free :
      (offset : ℤ)
      → any (bans_id u.user_id) db.banned_users.rows ≡ false
      → advance e now (checking u.user_id offset) db ≡ (inserting u.user_id offset, db)
  unfolding advance
  advance_free offset free = rw (has_ban_entry_ready e now u.user_id offset db ready, free) refl

  advance_inserted :
      (offset expire : ℤ)
      → e.int_add (pos now) offset ≡ some expire
      → advance e now (inserting u.user_id offset) db
        ≡ (banned u.user_id, with_ban e u.user_id expire db)
  unfolding advance
  advance_inserted offset expire sum = rw (
      insert_ban_ready e now u.user_id offset db ready expire sum
        (any-find? (named uname) (has_id u.user_id) u db.users.rows found (==_refl u.user_id)))

-- On a complete schema, where the engine can compute both expiries: two calls that ban one account,
-- which has no ban yet, both insert a row if each looks for one before the other inserts. Both
-- return, and then the account has two bans, that of the first in front.
pub two-run_bans :
    (e : Engine) (now : ℕ) (uname : String) (days1 days2 expire1 expire2 : ℤ) (u : User) (db : Db)
    → IsReady db
    → find? (named uname) db.users.rows ≡ some u
    → any (bans_id u.user_id) db.banned_users.rows ≡ false
    → e.int_add (pos now) (ban_offset days1) ≡ some expire1
    → e.int_add (pos now) (ban_offset days2) ≡ some expire2
    → let s =
        run_bans e
          (in_turn now)
          (record { shared = db; thread = two (finding uname days1) (finding uname days2) }) in
      (s.thread 0 ≡ banned u.user_id)
      × (s.thread 1 ≡ banned u.user_id)
      × (bans_of u.user_id s.shared ≡ expire1 ∷ expire2 ∷ [])
unfolding run
two-run_bans e now uname days1 days2 expire1 expire2 u db ready found free sum1 sum2 =
    let db1 = with_ban e u.user_id expire1 db in
    let ready1 : IsReady db1 = ground (arith, ready) in
    rw
      (
        advance_found e now uname db ready u found days1,
        advance_found e now uname db ready u found days2,
        advance_free e now uname db ready u found (ban_offset days1) free,
        advance_free e now uname db ready u found (ban_offset days2) free,
        advance_inserted e now uname db ready u found (ban_offset days1) expire1 sum1,
        advance_inserted e now uname db1 ready1 u found (ban_offset days2) expire2 sum2,
      )
      (
        refl,
        refl,
        bans_of-with_ban e u.user_id expire2 db1
            ∙ ap (λ l. l ++ expire2 ∷ [])
                (bans_of-with_ban e u.user_id expire1 db
                  ∙ ap (λ l. l ++ expire1 ∷ []) (bans_of-free u.user_id db free)),
      )
