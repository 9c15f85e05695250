-- ===== src/Db/Bans/Threads/Interleaved.antt =====
-- What calls of `banUser` guarantee in any interleaving (DB/DBPostgres.cpp, DB/DBSQLite.cpp).
use wrongthink.Base.{
  ℕ, String, Bool, true, false, List, [], ◌∷◌, ◌++◌, map, any, any-append, any-find?, find?, filter,
  filter-append, ◌≡◌, refl, ap, ◌∙◌, arith, ◌==◌, ==→eq, ==_refl, Bool-cases, Option-cases, inl,
  inr, ◌⊎◌,
}
use mathlib.Core.List.{append-nil}
use wrongthink.Db.Bans.Threads.Asked.{IsAsked, step-IsAsked}
use wrongthink.Base.Int.{ℤ, pos}
use wrongthink.Action.{user_not_found, out_of_range}
use wrongthink.Concurrent.{IsBackedPool, IsStepped, run-IsBackedPool, step-IsBackedPool, run-Asked}
use wrongthink.Db.Engine.{Engine}
use wrongthink.Db.Tables.{BannedUser, Db}
use wrongthink.Db.Users.{named, has_id}
use wrongthink.Db.Users.Accounts.{user_id_by_name_ready}
use wrongthink.Db.Relations.{Refers-snoc}
use wrongthink.Db.Bans.{bans_id, ban_offset}
use wrongthink.Db.Bans.Rows.{extended-any, extended-other}
use wrongthink.Db.Bans.Sound.{BanAccounts-extended}
use wrongthink.Db.Bans.Writes.{
  has_ban_entry_ready, extend_ban_ready, extend_ban_overflow, insert_ban_ready, insert_ban_overflow,
}
use wrongthink.Db.Bans.Threads.Backed.{
  has_ban, IsTarget, IsBacked, IsGood, IsLater, later-IsGrown, IsBacked-later,
}
use wrongthink.Db.Bans.Threads.{
  Banning, finding, checking, extending, inserting, banned, failed, advance, Bans, run_bans,
}

module _ (e : Engine) (now : ℕ) (spared : ℕ → Bool) (before db : Db)
    (v : IsGood spared before db) where
  abbrev IsAdvanced : Banning × Db → Type 0
  IsAdvanced r = IsStepped (IsGood spared before) (IsBacked spared) IsLater db r

  same_rows : (p : Banning) → IsBacked spared db p → IsAdvanced (p, db)
  same_rows p backed = record {
    good = v;
    backed = backed;
    later = record { bans = _; exists = refl; same = refl; still = λ j h. h };
  }

  other_account : (uid j : ℕ) → spared uid ≡ false → spared j ≡ true → (uid == j) ≡ false
  other_account uid j aimed safe = elim (Bool-cases (uid == j)) [
    | inl same ↦ let eq = ap spared (==→eq uid j same) in absurd (ground (arith))
    | inr other ↦ other
  ]

  advance_find :
      (uname : String) (days : ℤ)
      → IsBacked spared db (finding uname days)
      → IsAdvanced (advance e now (finding uname days) db)
  unfolding advance
  advance_find uname days aimed = elim (Option-cases (find? (named uname) db.users.rows)) [
    | inl nobody ↦
        rw (user_id_by_name_ready db v.ready uname, nobody)
          (same_rows (failed user_not_found) (inl refl))
    | inr (u, found) ↦
        rw (user_id_by_name_ready db v.ready uname, found)
          (same_rows (checking u.user_id (ban_offset days)) (
            any-find? (named uname) (has_id u.user_id) u db.users.rows found (==_refl u.user_id),
            aimed u found,
          ))
  ]

  advance_check :
      (uid : ℕ) (days : ℤ)
      → IsTarget spared db uid
      → IsAdvanced (advance e now (checking uid days) db)
  unfolding advance
  advance_check uid days target = elim (Bool-cases (has_ban uid db)) [
    | inl there ↦
        rw (has_ban_entry_ready e now uid days db v.ready, there)
          (same_rows (extending uid days) (target, there))
    | inr free ↦
        rw (has_ban_entry_ready e now uid days db v.ready, free)
          (same_rows (inserting uid days) target)
  ]

  advance_extend :
      (uid : ℕ) (days : ℤ)
      → IsBacked spared db (extending uid days)
      → IsAdvanced (advance e now (extending uid days) db)
  unfolding advance
  advance_extend uid days ((there, aimed), has) = elim (Option-cases (e.int_add (pos now) days)) [
    | inl over ↦
        rw (extend_ban_overflow e now uid days db v.ready over)
          (same_rows (failed out_of_range) (inr refl))
    | inr (expire, sum) ↦ rw (extend_ban_ready e now uid days db v.ready expire sum) (record {
      good = record {
        ready = ground (arith, v.ready);
        people = v.people;
        accounts = BanAccounts-extended uid expire db.banned_users.rows db.users.rows v.accounts;
        kept = λ j safe.
            ap (map (λ (b : BannedUser). b.expire))
              (extended-other uid j expire db.banned_users.rows (other_account uid j aimed safe))
            ∙ v.kept j safe;
      };
      backed = extended-any uid uid expire db.banned_users.rows ∙ has;
      later = record {
        bans = _;
        exists = refl;
        same = refl;
        still = λ j h. extended-any uid j expire db.banned_users.rows ∙ h;
      };
    })
  ]

  spared-snoc :
      (uid j : ℕ) (b : BannedUser)
      → b.user_id ≡ uid
      → (uid == j) ≡ false
      → filter (bans_id j) (db.banned_users.rows ++ b ∷ [])
        ≡ filter (bans_id j) db.banned_users.rows
  unfolding filter
  spared-snoc uid j b of_uid other =
      let skip : (j == b.user_id) ≡ false = ground (arith) in
      rw (filter-append (bans_id j) db.banned_users.rows (b ∷ []), skip, append-nil) refl

  has_ban-snoc :
      (j : ℕ) (b : BannedUser)
      → (has_ban j db ≡ true) ⊎ (b.user_id ≡ j)
      → any (bans_id j) (db.banned_users.rows ++ b ∷ []) ≡ true
  unfolding any
  has_ban-snoc j b (inl has) = rw (any-append (bans_id j) db.banned_users.rows (b ∷ []), has) refl
  has_ban-snoc j b (inr same) =
      rw (any-append (bans_id j) db.banned_users.rows (b ∷ []), same, ==_refl j) (ground arith)

  advance_insert :
      (uid : ℕ) (days : ℤ)
      → IsTarget spared db uid
      → IsAdvanced (advance e now (inserting uid days) db)
  unfolding advance
  advance_insert uid days (there, aimed) = elim (Option-cases (e.int_add (pos now) days)) [
    | inl over ↦ rw (insert_ban_overflow e now uid days db v.ready over) (record {
      good = record {
        ready = ground (arith, v.ready);
        people = v.people;
        accounts = v.accounts;
        kept = v.kept;
      };
      backed = inr refl;
      later = record { bans = _; exists = refl; same = refl; still = λ j h. h };
    })
    | inr (expire, sum) ↦ rw (insert_ban_ready e now uid days db v.ready expire sum there) (record {
      good = record {
        ready = ground (arith, v.ready);
        people = v.people;
        accounts =
            Refers-snoc (λ (b : BannedUser). b.user_id) has_id db.banned_users.rows _ db.users.rows
              there v.accounts;
        kept = λ j safe.
            ap (map (λ (b : BannedUser). b.expire))
              (spared-snoc uid j _ refl (other_account uid j aimed safe))
            ∙ v.kept j safe;
      };
      backed = has_ban-snoc uid _ (inr refl);
      later = record {
        bans = _;
        exists = refl;
        same = refl;
        still = λ j h. has_ban-snoc j _ (inl h);
      };
    })
  ]

  pub advance_lem : (p : Banning) → IsBacked spared db p → IsAdvanced (advance e now p db)
  unfolding advance
  advance_lem (finding uname days) h = advance_find uname days h
  advance_lem (checking uid days) h = advance_check uid days h
  advance_lem (extending uid days) h = advance_extend uid days h
  advance_lem (inserting uid days) h = advance_insert uid days h
  advance_lem (banned uid) h = same_rows (banned uid) h
  advance_lem (failed x) h = same_rows (failed x) h

-- The state is good and each call has what it needs; and each call is at work on what it was asked.
pub record IsOrderly (e : Engine) (spared : ℕ → Bool) (before : Db) (asked : ℕ → String × ℤ)
    (s : Bans) : Type 0 where
  pub pool : IsBackedPool (IsGood spared before) (IsBacked spared) s
  pub asks : (i : ℕ) → IsAsked e before.users.rows (asked i) (s.thread i)

advance-IsStepped :
    (e : Engine) (spared : ℕ → Bool) (before : Db) (now : ℕ) (p : Banning) (db : Db)
    → IsGood spared before db
    → IsBacked spared db p
    → IsStepped (IsGood spared before) (IsBacked spared) IsLater db (advance e now p db)
advance-IsStepped e spared before now p db g b = advance_lem e now spared before db g p b

IsBacked-kept :
    (spared : ℕ → Bool) (s t : Db) (p : Banning)
    → IsLater s t
    → IsBacked spared s p
    → IsBacked spared t p
IsBacked-kept spared s t p l b = IsBacked-later spared s t (later-IsGrown spared s t l) p b

-- However the statements of any number of calls interleave, from a state in which this is so: the
-- schema is complete, the accounts are those of before, and every ban is of an account; a call that
-- is about to extend a ban finds one; a call that has returned has left a ban of the account of the
-- name that it was asked to ban; a call has failed only where no account has that name, or where one
-- has and at some clock the engine cannot add to it the offset for the days that were asked for; and
-- accounts that no call is to ban have the bans that they had.
pub run_bans-IsOrderly :
    (e : Engine) (schedule : List (ℕ × ℕ)) (spared : ℕ → Bool) (before : Db)
    (asked : ℕ → String × ℤ) (s : Bans)
    → IsOrderly e spared before asked s
    → IsOrderly e spared before asked (run_bans e schedule s)
run_bans-IsOrderly e schedule spared before asked s v =
    let steps = advance-IsStepped e spared before in
    let keeps = IsBacked-kept spared in
    record {
      pool =
          run-IsBackedPool (advance e) (IsGood spared before) (IsBacked spared) IsLater steps keeps
            schedule s v.pool;
      asks =
          run-Asked (advance e) (IsBackedPool (IsGood spared before) (IsBacked spared))
            (λ i p. IsAsked e before.users.rows (asked i) p)
            (step-IsBackedPool (advance e) (IsGood spared before) (IsBacked spared) IsLater steps
              keeps)
            (λ i now s w.
              step-IsAsked e now spared before s.shared w.good (asked i) (s.thread i) (w.backed i))
            schedule s v.pool v.asks;
    }
