-- ===== src/Db/Bans/Rows.antt =====
-- The rows of `banned_users` after the `update` statement of `banUser` (DB/DBPostgres.cpp,
-- DB/DBSQLite.cpp).
use wrongthink.Base.{
  ℕ, false, List, [], ◌∷◌, map, filter, any, ◌≡◌, refl, ap, arith, ◌==◌, ==→eq, ◌||◌, All,
  if◌then◌else◌, Bool-cases, inl, inr,
}
use wrongthink.Base.Int.{ℤ}
use wrongthink.Db.Tables.{BannedUser}
use wrongthink.Db.Bans.{bans_id, extended}

module _ (uid j : ℕ) (expire : ℤ) where
  -- The expiries of a user after the `update` statement.
  pub extended-same :
      (rows : List BannedUser)
      → All
          (λ (t : ℤ). t ≡ expire)
          (map
            (λ (b : BannedUser). b.expire)
            (filter (bans_id uid) (map (extended uid expire) rows)))
  unfolding filter
  extended-same [] = tt
  extended-same (b ∷ bs) = elim (Bool-cases (uid == b.user_id)) [
    | inl same ↦ rw same (rw same (refl, extended-same bs))
    | inr other ↦ rw other (rw other (extended-same bs))
  ]

  pub user_id-extended : (b : BannedUser) → (extended uid expire b).user_id ≡ b.user_id
  user_id-extended b = elim (Bool-cases (uid == b.user_id)) [
    | inl same ↦ rw same refl
    | inr other ↦ rw other refl
  ]

  pub extended-any :
      (rows : List BannedUser)
      → any (bans_id j) (map (extended uid expire) rows) ≡ any (bans_id j) rows
  unfolding any
  extended-any [] = refl
  extended-any (b ∷ bs) = rw (user_id-extended b) (ap (λ r. j == b.user_id || r) (extended-any bs))

  pub extended-other :
      (rows : List BannedUser)
      → (uid == j) ≡ false
      → filter (bans_id j) (map (extended uid expire) rows) ≡ filter (bans_id j) rows
  unfolding filter
  extended-other [] h = refl
  extended-other (b ∷ bs) h = elim (Bool-cases (uid == b.user_id)) [
    | inl same ↦
        let skip : (j == b.user_id) ≡ false = ground (arith, ==→eq uid b.user_id same) in
        rw (user_id-extended b, skip) (extended-other bs h)
    | inr other ↦
        rw (other)
          (ap (λ (r : List BannedUser). if j == b.user_id then b ∷ r else r) (extended-other bs h))
  ]

-- An account with no ban has no rows.
pub no_bans :
    (uid : ℕ) (rows : List BannedUser)
    → any (bans_id uid) rows ≡ false
    → filter (bans_id uid) rows ≡ []
unfolding any filter
no_bans uid [] h = refl
no_bans uid (b ∷ bs) h = ground (arith, no_bans uid bs)
