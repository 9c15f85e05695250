-- ===== src/Service/Accounts/Dashes.antt =====
-- The loops of `GenerateUser` that erase the dashes of a uuid (WrongthinkServiceImpl.cpp).
use Prim.Native.Char.{Char, code}
use wrongthink.Base.{
  ℕ, zero, suc, ◌<◌, ◌≡◌, refl, ap, String, Bool, Option, none, some, arith, ◌==◌, if◌then◌else◌,
  Bool-cases, Option-cases, inl, inr, sym, ◌∙◌,
}

abbrev is_dash : Char → Bool
is_dash c = code c == b'-'

abbrev pub next : Option ℕ → Option ℕ
next none = none
next (some i) = some (suc i)

-- id.find('-'), counted in characters (a uuid is ASCII)
find_dash : String → Option ℕ
find_dash String.[] = none
find_dash (String.◌∷◌ c s) = if is_dash c then some 0 else next (find_dash s)

-- id.erase(idx, 1)
erase : ℕ → String → String
erase idx String.[] = String.[]
erase zero (String.◌∷◌ c s) = s
erase (suc idx) (String.◌∷◌ c s) = String.◌∷◌ c (erase idx s)

-- The loop, with fuel.
erase_dashes : ℕ → String → String
erase_dashes zero id = id
erase_dashes (suc fuel) id = elim (find_dash id) [
  | none ↦ id
  | some idx ↦ erase_dashes fuel (erase idx id)
]

-- The number of characters, which is enough fuel: each round erases one.
size : String → ℕ
size String.[] = 0
size (String.◌∷◌ c s) = suc (size s)

unfoldable pub strip_dashes : String → String
unfolding find_dash erase erase_dashes size
strip_dashes id = erase_dashes (suc (size id)) id

-- The characters that are no dash, in their order.
unfoldable pub without_dashes : String → String
without_dashes String.[] = String.[]
without_dashes (String.◌∷◌ c s) =
    let rest = without_dashes s in if is_dash c then rest else String.◌∷◌ c rest

next-none : (o : Option ℕ) → next o ≡ none → o ≡ none
next-none none h = refl
next-none (some i) h = cc

next-zero : (o : Option ℕ) → next o ≡ some 0 → ⊥
next-zero none h = cc
next-zero (some i) h = grind arith

next-suc : (o : Option ℕ) (idx : ℕ) → next o ≡ some (suc idx) → o ≡ some idx
next-suc none idx h = cc
next-suc (some i) idx h = cc

some-zero : {idx : ℕ} → some 0 ≡ some (suc idx) → ⊥
some-zero h = grind arith

without_dashes-no_dash : (s : String) → find_dash s ≡ none → without_dashes s ≡ s
unfolding find_dash without_dashes
without_dashes-no_dash String.[] h = refl
without_dashes-no_dash (String.◌∷◌ c s) h = elim (Bool-cases (is_dash c)) [
  | inl dash ↦ ground arith
  | inr other ↦
      rw other
        (ap (String.◌∷◌ c) (without_dashes-no_dash s (next-none (find_dash s) (rw other at h))))
]

without_dashes-erase :
    (s : String) (idx : ℕ)
    → find_dash s ≡ some idx
    → without_dashes (erase idx s) ≡ without_dashes s
unfolding find_dash without_dashes erase
without_dashes-erase String.[] idx h = refl
without_dashes-erase (String.◌∷◌ c s) zero h = elim (Bool-cases (is_dash c)) [
  | inl dash ↦ rw dash
  | inr other ↦ absurd (next-zero (find_dash s) (rw other at h))
]
without_dashes-erase (String.◌∷◌ c s) (suc idx) h = elim (Bool-cases (is_dash c)) [
  | inl dash ↦ absurd (some-zero (rw dash at h))
  | inr other ↦
      rw other (
        ap (String.◌∷◌ c) (without_dashes-erase s idx (next-suc (find_dash s) idx (rw other at h))))
]

size-erase : (s : String) (idx : ℕ) → find_dash s ≡ some idx → suc (size (erase idx s)) ≡ size s
unfolding find_dash erase size
size-erase String.[] idx h = cc
size-erase (String.◌∷◌ c s) zero h = refl
size-erase (String.◌∷◌ c s) (suc idx) h = elim (Bool-cases (is_dash c)) [
  | inl dash ↦ absurd (some-zero (rw dash at h))
  | inr other ↦ ap suc (size-erase s idx (next-suc (find_dash s) idx (rw other at h)))
]

erase_dashes-enough :
    (fuel : ℕ) (s : String) → size s < fuel → erase_dashes fuel s ≡ without_dashes s
unfolding erase_dashes
erase_dashes-enough zero s h = elim h [ ]
erase_dashes-enough (suc fuel) s h = elim (Option-cases (find_dash s)) [
  | inl e ↦ rw (e, erase_dashes) (sym (without_dashes-no_dash s e))
  | inr (idx, e) ↦
      rw (e, erase_dashes)
        (erase_dashes-enough fuel (erase idx s) (omega (arith, size-erase s idx e))
          ∙ without_dashes-erase s idx e)
]

-- The loop ends with the text that has every dash taken out, and all else in place.
pub strip_dashes-eq-without_dashes : (id : String) → strip_dashes id ≡ without_dashes id
unfolding strip_dashes
strip_dashes-eq-without_dashes id = erase_dashes-enough (suc (size id)) id (omega arith)
