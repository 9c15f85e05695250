-- ===== src/Db/Bans/Banning.antt =====
-- `banUser` (DB/DBPostgres.cpp, DB/DBSQLite.cpp) on each of its branches.
use mathlib.Core.List.{append-nil}
use wrongthink.Base.{
  ℕ, String, true, false, none, some, List, map, filter, filter-append, any, any-append, find?, ◌≡◌,
  refl, ap, ◌∙◌, arith, ◌==◌, ==_refl, All, Bool-cases, inl, inr,
}
use wrongthink.Base.Int.{ℤ, pos}
use wrongthink.Action.{ok, thrown, out_of_range}
use wrongthink.Db.Engine.{Engine}
use wrongthink.Db.Tables.{User, BannedUser, Db}
use wrongthink.Db.Sql.Schema.{IsReady}
use wrongthink.Db.Users.{named}
use wrongthink.Db.Bans.{bans_id, ban_user, ban_offset}
use wrongthink.Db.Bans.Rows.{extended-same, extended-any, extended-other, no_bans}
use wrongthink.Db.Bans.Writes.{
  with_extended, with_ban, extend_ban_overflow, insert_ban_overflow, ban_user_again, ban_user_first,
  ban_user_extends, ban_user_inserts,
}

module _ (e : Engine) (now : ℕ) (uname : String) (days : ℤ) (db : Db) (ready : IsReady db)
    (u : User) (found : find? (named uname) db.users.rows ≡ some u) where
  -- On a complete schema, a ban of an account whose expiry the engine cannot compute throws, and
  -- every ban stays as it was.
  pub ban_user_overflow :
      e.int_add (pos now) (ban_offset days) ≡ none
      → ((ban_user e now uname days db).0 ≡ thrown out_of_range)
        × ((ban_user e now uname days db).1.banned_users.rows ≡ db.banned_users.rows)
  ban_user_overflow sum = elim (Bool-cases (any (bans_id u.user_id) db.banned_users.rows)) [
    | inl banned ↦
        rw
          (
            ban_user_again e now uname days db ready u found banned,
            extend_ban_overflow e now u.user_id (ban_offset days) db ready sum,
          )
          (refl, refl)
    | inr free ↦
        rw
          (
            ban_user_first e now uname days db ready u found free,
            insert_ban_overflow e now u.user_id (ban_offset days) db ready sum,
          )
          (refl, refl)
  ]

-- The expiries of the bans of an account.
abbrev pub bans_of : ℕ → Db → List ℤ
bans_of uid db = map (λ (b : BannedUser). b.expire) (filter (bans_id uid) db.banned_users.rows)

-- The database has bans of the account, all with this expiry, and those of `before` for the others.
pub record IsBannedUntil (uid : ℕ) (expire : ℤ) (before after : Db) : Type 0 where
  pub banned : any (bans_id uid) after.banned_users.rows ≡ true
  pub until : All (λ (t : ℤ). t ≡ expire) (bans_of uid after)
  pub others : (j : ℕ) → (uid == j) ≡ false → bans_of j after ≡ bans_of j before

with_extended-IsBannedUntil :
    (uid : ℕ) (expire : ℤ) (db : Db)
    → any (bans_id uid) db.banned_users.rows ≡ true
    → IsBannedUntil uid expire db (with_extended uid expire db)
with_extended-IsBannedUntil uid expire db banned = record {
  banned = extended-any uid uid expire db.banned_users.rows ∙ banned;
  until = extended-same uid uid expire db.banned_users.rows;
  others = λ j other.
      ap (map (λ (b : BannedUser). b.expire))
        (extended-other uid j expire db.banned_users.rows other);
}

with_ban-IsBannedUntil :
    (e : Engine) (uid : ℕ) (expire : ℤ) (db : Db)
    → any (bans_id uid) db.banned_users.rows ≡ false
    → IsBannedUntil uid expire db (with_ban e uid expire db)
unfolding any filter
with_ban-IsBannedUntil e uid expire db free = record {
  banned = rw (any-append (bans_id uid) db.banned_users.rows, ==_refl uid) (ground arith);
  until =
      rw
        (
          filter-append (bans_id uid) db.banned_users.rows,
          no_bans uid db.banned_users.rows free,
          ==_refl uid,
        )
        (refl, tt);
  others = λ j other.
      let skip : (j == uid) ≡ false = ground (arith) in
      rw (filter-append (bans_id j) db.banned_users.rows, skip, append-nil) refl;
}

-- On a complete schema, a ban of an account, whose expiry the engine computes, returns. It leaves
-- at least one ban of the account, each with the new expiry, and the bans of every other account as
-- they were.
pub ban_user-IsBannedUntil :
    (e : Engine) (now : ℕ) (uname : String) (days : ℤ) (db : Db) (u : User) (expire : ℤ)
    → IsReady db
    → find? (named uname) db.users.rows ≡ some u
    → e.int_add (pos now) (ban_offset days) ≡ some expire
    → ((ban_user e now uname days db).0 ≡ ok tt)
      × IsBannedUntil u.user_id expire db (ban_user e now uname days db).1
ban_user-IsBannedUntil e now uname days db u expire ready found sum =
    elim (Bool-cases (any (bans_id u.user_id) db.banned_users.rows)) [
      | inl banned ↦
          rw (ban_user_extends e now uname days db ready u found expire sum banned)
            (refl, with_extended-IsBannedUntil u.user_id expire db banned)
      | inr free ↦
          rw (ban_user_inserts e now uname days db ready u found expire sum free)
            (refl, with_ban-IsBannedUntil e u.user_id expire db free)
    ]
