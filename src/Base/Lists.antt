-- ===== src/Base/Lists.antt =====
-- Lists searched by Boolean tests, and predicates on lists by recursion.
use Prim.Native.Nat.{ℕ, zero, suc, ◌+◌}
use Prim.Native.String.{String}
use mathlib.Core.Path.{◌≡◌, refl, sym}
use mathlib.Core.Bool.{Bool, true, false, ◌||◌, ◌&&◌, not}
use mathlib.Core.List.{List, [], ◌∷◌, ◌++◌, append-nil}
use mathlib.Core.Option.{Option, none, some}
use native.Mathlib.Omega.{arith}
use text.Mathlib.Text.{◌==◌ as str_eq}
use mathlib.Core.Logic.{inl, inr}
use wrongthink.Base.Tests.{if◌then◌else◌, Bool-cases, ◌==◌}

module _ {ℓ} {A : Type ℓ} where
  abbrev pub length : List A → ℕ
  length [] = 0
  length (x ∷ xs) = suc (length xs)

  abbrev pub get_elem? : List A → ℕ → Option A
  get_elem? [] i = none
  get_elem? (x ∷ xs) zero = some x
  get_elem? (x ∷ xs) (suc i) = get_elem? xs i

  abbrev pub drop : ℕ → List A → List A
  drop zero xs = xs
  drop (suc n) [] = []
  drop (suc n) (x ∷ xs) = drop n xs

  pub get_elem?-length :
      (xs ys : List A) (n : ℕ) → n ≡ length xs → get_elem? (xs ++ ys) n ≡ get_elem? ys 0
  get_elem?-length [] ys n h = rw h
  get_elem?-length (x ∷ xs) ys zero h = absurd (omega arith)
  get_elem?-length (x ∷ xs) ys (suc n) h = get_elem?-length xs ys n (omega arith)

  unfoldable pub any : (A → Bool) → List A → Bool
  any p [] = false
  any p (x ∷ xs) = p x || any p xs

  unfoldable pub all : (A → Bool) → List A → Bool
  all p [] = true
  all p (x ∷ xs) = p x && all p xs

  unfoldable pub find? : (A → Bool) → List A → Option A
  find? p [] = none
  find? p (x ∷ xs) = if p x then some x else find? p xs

  unfoldable pub filter : (A → Bool) → List A → List A
  filter p [] = []
  filter p (x ∷ xs) = let rest = filter p xs in if p x then x ∷ rest else rest

  pub length-append : (xs ys : List A) → length (xs ++ ys) ≡ length xs + length ys
  length-append [] ys = omega arith
  length-append (x ∷ xs) ys = omega (arith, length-append xs ys)

  pub any-append : (p : A → Bool) (xs ys : List A) → any p (xs ++ ys) ≡ (any p xs || any p ys)
  unfolding any
  any-append p [] ys = refl
  any-append p (x ∷ xs) ys = ground (arith, any-append p xs ys)

  pub any-&&_false :
      (p q : A → Bool) (xs : List A) → any p xs ≡ false → any (λ x. p x && q x) xs ≡ false
  unfolding any
  any-&&_false p q [] h = refl
  any-&&_false p q (x ∷ xs) h = ground (arith, any-&&_false p q xs)

  pub any-filter-false :
      (p q : A → Bool) (xs : List A) → any p xs ≡ false → any p (filter q xs) ≡ false
  unfolding any filter
  any-filter-false p q [] h = refl
  any-filter-false p q (x ∷ xs) h = ground (arith, any-filter-false p q xs)

  pub filter-append :
      (p : A → Bool) (xs ys : List A) → filter p (xs ++ ys) ≡ filter p xs ++ filter p ys
  unfolding filter
  filter-append p [] ys = refl
  filter-append p (x ∷ xs) ys = ground (arith, filter-append p xs ys)

  -- What is found where nothing was found before the end.
  pub find?-append_none :
      (p : A → Bool) (xs ys : List A) → any p xs ≡ false → find? p (xs ++ ys) ≡ find? p ys
  unfolding any find?
  find?-append_none p [] ys h = refl
  find?-append_none p (x ∷ xs) ys h = ground (arith, find?-append_none p xs ys)

  -- What is found stays found when the list grows.
  pub find?-append_some :
      (p : A → Bool) (x : A) (xs ys : List A) → find? p xs ≡ some x → find? p (xs ++ ys) ≡ some x
  unfolding find?
  find?-append_some p x [] ys h = cc
  find?-append_some p x (y ∷ xs) ys h = elim (Bool-cases (p y)) [
    | inl hit ↦ rw (hit, find?) (rw (hit, find?) at h)
    | inr miss ↦ rw (miss, find?) (find?-append_some p x xs ys (rw (miss, find?) at h))
  ]

  pub find?-any-false : (p : A → Bool) (xs : List A) → any p xs ≡ false → find? p xs ≡ none
  unfolding any find?
  find?-any-false p [] h = refl
  find?-any-false p (x ∷ xs) h = ground (arith, find?-any-false p xs)

  pub find?-any-true :
      (p : A → Bool) (xs : List A)
      → any p xs ≡ true
      → (x : A) × (find? p xs ≡ some x) × (p x ≡ true)
  unfolding any find?
  find?-any-true p [] h = absurd (ground arith)
  find?-any-true p (x ∷ xs) h = elim (Bool-cases (p x)) [
    | inl hit ↦ (x, rw (hit, find?), hit)
    | inr miss ↦
        let (y, found, hit) = find?-any-true p xs (ground arith) in (y, rw (miss, find?) found, hit)
  ]

pub some_injective {ℓ} : {A : Type ℓ} {a b : A} → some a ≡ some b → a ≡ b
some_injective h = cc

-- What is found by one test and passes another is there for the other.
pub any-find? {ℓ} :
    {A : Type ℓ} (p q : A → Bool) (x : A) (xs : List A)
    → find? p xs ≡ some x
    → q x ≡ true
    → any q xs ≡ true
unfolding any find?
any-find? p q x [] h k = cc
any-find? p q x (y ∷ ys) h k = elim (Bool-cases (p y)) [
  | inl hit ↦
      let same : y ≡ x = some_injective (rw (hit, find?) at h) in rw (same, k) (ground arith)
  | inr miss ↦ let rest = any-find? p q x ys (rw (miss, find?) at h) k in ground (arith, rest)
]

-- Counting by a test, and searching by it.
pub length-filter_zero {ℓ} :
    {A : Type ℓ} (p : A → Bool) (xs : List A) → (length (filter p xs) == 0) ≡ not (any p xs)
unfolding any filter
length-filter_zero p [] = refl
length-filter_zero p (x ∷ xs) = ground (arith, length-filter_zero p xs)

-- A predicate of every entry, by recursion, so that it computes to tuples.
abbrev pub All {ℓ κ} : {A : Type ℓ} → (A → Type κ) → List A → Type κ
All P [] = Unit
All P (x ∷ xs) = P x × All P xs

module _ {ℓ κ} {A : Type ℓ} where
  pub All-append : (P : A → Type κ) (xs ys : List A) → All P xs → All P ys → All P (xs ++ ys)
  All-append P [] ys hx hy = hy
  All-append P (x ∷ xs) ys hx hy = (hx.0, All-append P xs ys hx.1 hy)

  pub All-filter : (P : A → Type κ) (p : A → Bool) (xs : List A) → All P xs → All P (filter p xs)
  unfolding filter
  All-filter P p [] h = tt
  All-filter P p (x ∷ xs) h = elim (Bool-cases (p x)) [
    | inl hit ↦ rw hit (h.0, All-filter P p xs h.1)
    | inr miss ↦ rw miss (All-filter P p xs h.1)
  ]

  pub All-map {μ} :
      (P : A → Type κ) (Q : A → Type μ) (f : (x : A) → P x → Q x) (xs : List A)
      → All P xs
      → All Q xs
  All-map P Q f [] h = tt
  All-map P Q f (x ∷ xs) h = (f x h.0, All-map P Q f xs h.1)

abbrev pub contains : String → List String → Bool
contains s xs = any (str_eq s) xs

pub All-of-filter {ℓ} :
    {A : Type ℓ} (p : A → Bool) (xs : List A) → All (λ x. p x ≡ true) (filter p xs)
unfolding filter
All-of-filter p [] = tt
All-of-filter p (x ∷ xs) = elim (Bool-cases (p x)) [
  | inl hit ↦ rw hit (hit, All-of-filter p xs)
  | inr miss ↦ rw miss (All-of-filter p xs)
]

-- A list that was added to, and one that was not.
abbrev pub Grown {ℓ} : {A : Type ℓ} → List A → List A → Type ℓ
Grown {A = A} before after = (more : List A) × (after ≡ before ++ more)

pub not_grown {ℓ} : {A : Type ℓ} (xs : List A) → Grown xs xs
not_grown xs = ([], sym (append-nil xs))

pub any-Grown {ℓ} :
    {A : Type ℓ} (p : A → Bool) (xs ys : List A) → Grown xs ys → any p xs ≡ true → any p ys ≡ true
any-Grown p xs ys (more, same) h = rw (same, any-append p xs more, h) refl

pub find?-Grown {ℓ} :
    {A : Type ℓ} (p : A → Bool) (x : A) (xs ys : List A)
    → Grown xs ys
    → find? p xs ≡ some x
    → find? p ys ≡ some x
find?-Grown p x xs ys (more, same) h = rw same (find?-append_some p x xs more h)
