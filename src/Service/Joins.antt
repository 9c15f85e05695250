-- ===== src/Service/Joins.antt =====
-- Streaming the rows of a join with `users` (the loops over rowsets in WrongthinkServiceImpl.cpp).
use mathlib.Core.Path.{ap₂}
use wrongthink.Base.{
  ℕ, suc, ◌<◌, true, List, [], ◌∷◌, ◌++◌, map, filter, any, ◌≡◌, refl, ap, ◌∙◌, arith, All,
  All-append, Bool-cases, inl, inr,
}
use wrongthink.Action.{Outcome, ok}
use wrongthink.Db.Tables.{User}
use wrongthink.Db.Cells.{Row, Cell, join_row, inner_join}
use wrongthink.Db.Order.{Rising}
use wrongthink.Db.Sql.Schema.{TableName}
use wrongthink.Db.Users.{has_id}
use wrongthink.Service.{write_rows}

-- For each entry, one view for each account with its key.
unfoldable pub views : {R M : Type 0} → (R → ℕ) → (R → User → M) → List R → List User → List M
views key view [] us = []
views key view (r ∷ rs) us = map (view r) (filter (has_id (key r)) us) ++ views key view rs us

module _ {R M : Type 0} (table : TableName) (key : R → ℕ) (cells : R → List Cell)
    (read : Row → Outcome M) (view : R → User → M)
    (reads : (r : R) (u : User) → read (join_row table key cells r u) ≡ ok (view r u)) where
  write_joined :
      (r : R) (us : List User) (rest : List Row)
      → write_rows read (map (join_row table key cells r) us ++ rest)
        ≡ (map (view r) us ++ (write_rows read rest).0, (write_rows read rest).1)
  unfolding write_rows
  write_joined r [] rest = refl
  write_joined r (u ∷ us) rest = rw (reads r u, write_joined r us rest)

  -- Where each row of the join can be read, the loop writes every view, and ends.
  pub write_rows-inner_join :
      (rs : List R) (us : List User)
      → write_rows read (inner_join table key cells rs us) ≡ (views key view rs us, ok tt)
  unfolding inner_join views write_rows
  write_rows-inner_join [] us = refl
  write_rows-inner_join (r ∷ rs) us =
      write_joined r (filter (has_id (key r)) us) (inner_join table key cells rs us)
      ∙ rw (write_rows-inner_join rs us)

filter_above :
    (k lo : ℕ) (us : List User) → Rising (λ u. u.user_id) lo us → k < lo → filter (has_id k) us ≡ []
unfolding filter
filter_above k lo [] h lt = refl
filter_above k lo (u ∷ us) h lt = ground (arith, filter_above k (suc u.user_id) us h.1)

-- Where keys rise, at most one account has the key.
one_user :
    (k lo : ℕ) (us : List User)
    → Rising (λ u. u.user_id) lo us
    → any (has_id k) us ≡ true
    → (u : User) × (filter (has_id k) us ≡ u ∷ [])
unfolding filter any
one_user k lo [] h there = cc
one_user k lo (u ∷ us) h there = elim (Bool-cases (has_id k u)) [
  | inl hit ↦ (u, rw hit (ap (◌∷◌ u) (filter_above k (suc u.user_id) us h.1 (ground arith))))
  | inr miss ↦
      let (w, found) = one_user k (suc u.user_id) us h.1 (rw miss at there) in (w, rw miss found)
]

module _ {R M X : Type 0} (key : R → ℕ) (view : R → User → M) (of_row : R → X) (of_view : M → X)
    (agrees : (r : R) (u : User) → of_view (view r u) ≡ of_row r) (us : List User)
    (rising : Rising (λ u. u.user_id) 1 us) where
  -- Where the account of every entry is there, the views are one for each entry, in order.
  pub map-views :
      (rs : List R)
      → All (λ r. any (has_id (key r)) us ≡ true) rs
      → map of_view (views key view rs us) ≡ map of_row rs
  unfolding views
  map-views [] h = refl
  map-views (r ∷ rs) h =
      let (u, one) = one_user (key r) 1 us rising h.0 in
      rw one (ap₂ ◌∷◌ (agrees r u) (map-views rs h.1))

module _ {R M : Type 0} (key : R → ℕ) (view : R → User → M) (Q : R → Type 0) (P : M → Type 0)
    (keeps : (r : R) (u : User) → Q r → P (view r u)) (us : List User) where
  All-map-view : (r : R) (ws : List User) → Q r → All P (map (view r) ws)
  All-map-view r [] q = tt
  All-map-view r (w ∷ ws) q = (keeps r w q, All-map-view r ws q)

  pub All-views : (rs : List R) → All Q rs → All P (views key view rs us)
  unfolding views
  All-views [] h = tt
  All-views (r ∷ rs) h =
      All-append P (map (view r) (filter (has_id (key r)) us)) (views key view rs us)
        (All-map-view r (filter (has_id (key r)) us) h.0) (All-views rs h.1)
