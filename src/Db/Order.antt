-- ===== src/Db/Order.antt =====
-- `order by` on a key, and lists whose keys rise.
use wrongthink.Base.{
  ℕ, suc, ◌≤◌, ◌<◌, ◌≡◌, refl, Bool, List, [], ◌∷◌, ◌++◌, map, filter, All, leb, arith,
  if◌then◌else◌,
}

module _ {R : Type 0} (key : R → ℕ) where
  unfoldable pub place : R → List R → List R
  place r [] = r ∷ []
  place r (x ∷ xs) = if leb (key r) (key x) then r ∷ x ∷ xs else x ∷ place r xs

  unfoldable pub order_by : List R → List R
  unfolding place
  order_by [] = []
  order_by (r ∷ rs) = place r (order_by rs)

  -- Keys rise strictly along the list, from `lo` on.
  abbrev pub Rising : ℕ → List R → Type 0
  Rising lo [] = Unit {0}
  Rising lo (r ∷ rs) = (lo ≤ key r) × Rising (suc (key r)) rs

  pub Rising-mono : (lo hi : ℕ) (rs : List R) → lo ≤ hi → Rising hi rs → Rising lo rs
  Rising-mono lo hi [] h r = tt
  Rising-mono lo hi (x ∷ xs) h r = (omega arith, r.1)

  pub Rising-filter : (p : R → Bool) (lo : ℕ) (rs : List R) → Rising lo rs → Rising lo (filter p rs)
  unfolding filter
  Rising-filter p lo [] h = tt
  Rising-filter p lo (x ∷ xs) h =
      ground
        (arith, Rising-filter p (suc (key x)) xs h.1, Rising-mono lo (suc (key x)) (filter p xs))

  place_first : (r : R) (rs : List R) → Rising (suc (key r)) rs → place r rs ≡ r ∷ rs
  unfolding place
  place_first r [] h = refl
  place_first r (x ∷ xs) h = ground arith

  -- Rows that already rise stay as they are.
  pub order_by-Rising : (lo : ℕ) (rs : List R) → Rising lo rs → order_by rs ≡ rs
  unfolding order_by
  order_by-Rising lo [] h = refl
  order_by-Rising lo (x ∷ xs) h =
      ground (arith, order_by-Rising (suc (key x)) xs h.1, place_first x xs h.1)

  -- One more row behind the others, with a greater key.
  pub Rising-snoc :
      (lo : ℕ) (rs : List R) (r : R)
      → lo ≤ key r
      → All (λ i. i < key r) (map key rs)
      → Rising lo rs
      → Rising lo (rs ++ r ∷ [])
  Rising-snoc lo [] r h b a = (h, tt)
  Rising-snoc lo (x ∷ xs) r h b a = (a.0, Rising-snoc (suc (key x)) xs r b.0 b.1 a.1)
