-- ===== src/Db/Relations.antt =====
-- Unique texts and references between tables (the `unique` and `references` constraints of
-- DB/DBPostgres.cpp and DB/DBSQLite.cpp), on rows.
use wrongthink.Base.{
  ℕ, String, Bool, true, false, List, [], ◌∷◌, ◌++◌, any, any-append, any-filter-false, filter, ◌≡◌,
  refl, arith, All, All-append, str_eq, Bool-cases, inl, inr,
}

-- No two rows have the same name.
abbrev pub IsUnique : {R : Type 0} → (R → String) → List R → Type 0
IsUnique name [] = Unit {0}
IsUnique name (r ∷ rs) = (any (λ x. str_eq (name x) (name r)) rs ≡ false) × IsUnique name rs

-- Each key is the key of a row.
abbrev pub Refers : {R S : Type 0} → (R → ℕ) → (ℕ → S → Bool) → List R → List S → Type 0
Refers key has rs ss = All (λ r. any (has (key r)) ss ≡ true) rs

-- A row more with a name that is new.
pub IsUnique-snoc :
    {R : Type 0} (name : R → String) (rs : List R) (x : R)
    → any (λ r. str_eq (name x) (name r)) rs ≡ false
    → IsUnique name rs
    → IsUnique name (rs ++ x ∷ [])
unfolding any
IsUnique-snoc name [] x h u = (refl, tt)
IsUnique-snoc name (r ∷ rs) x h u = (
  rw (any-append (λ y. str_eq (name y) (name r)) rs (x ∷ []), u.0) (ground arith),
  IsUnique-snoc name rs x (ground arith) u.1,
)

-- Rows more to refer to.
pub Refers-grow :
    {R S : Type 0} (key : R → ℕ) (has : ℕ → S → Bool) (rs : List R) (ss ts : List S)
    → Refers key has rs ss
    → Refers key has rs (ss ++ ts)
Refers-grow key has [] ss ts h = tt
Refers-grow key has (r ∷ rs) ss ts h =
    (rw (any-append (has (key r)) ss ts, h.0) (ground arith), Refers-grow key has rs ss ts h.1)

-- A row more that refers.
pub Refers-snoc :
    {R S : Type 0} (key : R → ℕ) (has : ℕ → S → Bool) (rs : List R) (x : R) (ss : List S)
    → any (has (key x)) ss ≡ true
    → Refers key has rs ss
    → Refers key has (rs ++ x ∷ []) ss
Refers-snoc key has rs x ss h k = All-append _ rs (x ∷ []) k (h, tt)

-- Rows less.
pub IsUnique-filter :
    {R : Type 0} (name : R → String) (p : R → Bool) (rs : List R)
    → IsUnique name rs
    → IsUnique name (filter p rs)
unfolding filter
IsUnique-filter name p [] h = tt
IsUnique-filter name p (r ∷ rs) h = elim (Bool-cases (p r)) [
  | inl kept ↦ rw kept (any-filter-false _ p rs h.0, IsUnique-filter name p rs h.1)
  | inr gone ↦ rw gone (IsUnique-filter name p rs h.1)
]
