-- ===== src/Db/Bans/Threads/Asked.antt =====
-- What a call of `banUser` does of what it was asked (DB/DBPostgres.cpp, DB/DBSQLite.cpp), among
-- calls that ban, which leave the accounts as they are.
use mathlib.Core.Path.{subst}
use wrongthink.Base.{
  ℕ, Bool, sym, String, true, none, some, List, find?, ◌≡◌, refl, ◌⊎◌, inl, inr, Bool-cases,
  Option-cases,
}
use wrongthink.Base.Int.{ℤ, pos}
use wrongthink.Action.{Exception, user_not_found, out_of_range}
use wrongthink.Db.Engine.{Engine}
use wrongthink.Db.Tables.{User, Db}
use wrongthink.Db.Sql.Schema.{IsReady}
use wrongthink.Db.Users.{named}
use wrongthink.Db.Users.Accounts.{user_id_by_name_ready}
use wrongthink.Db.Bans.{ban_offset}
use wrongthink.Db.Bans.Writes.{
  has_ban_entry_ready, extend_ban_ready, extend_ban_overflow, insert_ban_ready, insert_ban_overflow,
}
use wrongthink.Db.Bans.Threads.{
  Banning, finding, checking, extending, inserting, banned, failed, advance,
}
use wrongthink.Db.Bans.Threads.Backed.{has_account, has_ban, IsBacked, IsGood}

-- The key of the first account of the name.
abbrev pub IsCalled : List User → String → ℕ → Type 0
IsCalled users uname uid = (u : User) × (find? (named uname) users ≡ some u) × (u.user_id ≡ uid)

-- No account has the name; or one has, and at some clock the engine cannot add the offset to it.
abbrev pub HasFailed : Engine → List User → String → ℤ → Exception → Type 0
HasFailed e users uname days x =
    ((x ≡ user_not_found) × (find? (named uname) users ≡ none))
    ⊎ ((x ≡ out_of_range)
        × ((uid : ℕ) × IsCalled users uname uid)
        × ((now : ℕ) × (e.int_add (pos now) (ban_offset days) ≡ none)))

-- A call that was asked to ban `uname` for `days` is at work on the account of that name and on the
-- offset for these days; it returns with that account, or fails for one of two reasons.
abbrev pub IsAsked : Engine → List User → String × ℤ → Banning → Type 0
IsAsked e users (uname, days) (finding name ds) = (name ≡ uname) × (ds ≡ days)
IsAsked e users (uname, days) (checking uid offset) =
    IsCalled users uname uid × (offset ≡ ban_offset days)
IsAsked e users (uname, days) (extending uid offset) =
    IsCalled users uname uid × (offset ≡ ban_offset days)
IsAsked e users (uname, days) (inserting uid offset) =
    IsCalled users uname uid × (offset ≡ ban_offset days)
IsAsked e users (uname, days) (banned uid) = IsCalled users uname uid
IsAsked e users (uname, days) (failed x) = HasFailed e users uname days x

module _ (e : Engine) (now : ℕ) (db : Db) (ready : IsReady db) (uname : String) (days : ℤ) where
  abbrev AsksStill : Banning → Type 0
  AsksStill p = IsAsked e db.users.rows (uname, days) (advance e now p db).0

  find_asked : AsksStill (finding uname days)
  unfolding advance
  find_asked = elim (Option-cases (find? (named uname) db.users.rows)) [
    | inl nobody ↦ rw (user_id_by_name_ready db ready uname, nobody) (inl (refl, nobody))
    | inr (u, found) ↦ rw (user_id_by_name_ready db ready uname, found) ((u, found, refl), refl)
  ]

  module _ (uid : ℕ) (called : IsCalled db.users.rows uname uid) where
    check_asked : AsksStill (checking uid (ban_offset days))
    unfolding advance
    check_asked = elim (Bool-cases (has_ban uid db)) [
      | inl there ↦
          rw (has_ban_entry_ready e now uid (ban_offset days) db ready, there) (called, refl)
      | inr free ↦
          rw (has_ban_entry_ready e now uid (ban_offset days) db ready, free) (called, refl)
    ]

    extend_asked : AsksStill (extending uid (ban_offset days))
    unfolding advance
    extend_asked = elim (Option-cases (e.int_add (pos now) (ban_offset days))) [
      | inl over ↦
          rw (extend_ban_overflow e now uid (ban_offset days) db ready over)
            (inr (refl, (uid, called), (now, over)))
      | inr (expire, sum) ↦
          rw (extend_ban_ready e now uid (ban_offset days) db ready expire sum) called
    ]

    insert_asked : has_account uid db ≡ true → AsksStill (inserting uid (ban_offset days))
    unfolding advance
    insert_asked there = elim (Option-cases (e.int_add (pos now) (ban_offset days))) [
      | inl over ↦
          rw (insert_ban_overflow e now uid (ban_offset days) db ready over)
            (inr (refl, (uid, called), (now, over)))
      | inr (expire, sum) ↦
          rw (insert_ban_ready e now uid (ban_offset days) db ready expire sum there) called
    ]

  -- A step of a call that was asked this.
  advance-IsAsked :
      (p : Banning)
      → ((uid : ℕ) (offset : ℤ) → p ≡ inserting uid offset → has_account uid db ≡ true)
      → IsAsked e db.users.rows (uname, days) p
      → AsksStill p
  unfolding advance
  advance-IsAsked (finding name ds) there (same, as_many) = rw (same, as_many) find_asked
  advance-IsAsked (checking uid offset) there (called, same) = rw same (check_asked uid called)
  advance-IsAsked (extending uid offset) there (called, same) = rw same (extend_asked uid called)
  advance-IsAsked (inserting uid offset) there (called, same) =
      rw same (insert_asked uid called (there uid offset refl))
  advance-IsAsked (banned uid) there called = called
  advance-IsAsked (failed x) there why = why

aimed_exists :
    (spared : ℕ → Bool) (db : Db) (p : Banning)
    → IsBacked spared db p
    → (uid : ℕ) (offset : ℤ) → p ≡ inserting uid offset
    → has_account uid db ≡ true
aimed_exists spared db p backed uid offset same = (rw same at backed).0

pub step-IsAsked :
    (e : Engine) (now : ℕ) (spared : ℕ → Bool) (before db : Db) (v : IsGood spared before db)
    (asked : String × ℤ) (p : Banning)
    → IsBacked spared db p
    → IsAsked e before.users.rows asked p
    → IsAsked e before.users.rows asked (advance e now p db).0
step-IsAsked e now spared before db v (uname, days) p backed h =
    subst (λ rows. IsAsked e rows (uname, days) (advance e now p db).0) v.people
      (advance-IsAsked e now db v.ready uname days p (aimed_exists spared db p backed)
        (subst (λ rows. IsAsked e rows (uname, days) p) (sym v.people) h))
