-- ===== src/Action.antt =====
-- Code that changes a state and may throw: what was written before a throw stays written.
pub mod Outcomes
use wrongthink.Base.{inl, inr, ◌⊎◌, ℕ, String, ◌≡◌, refl, Bool, Option, none, some, List, [], ◌∷◌}

-- The exceptions that reach a `catch` of the server.
pub data Exception : Type 0 where
  syntax_error undefined_table undefined_column dependent_objects : Exception
  value_too_long unique_violation foreign_key_violation out_of_range : Exception
  bad_conversion null_value user_not_found : Exception

pub data Outcome {ℓ} (A : Type ℓ) : Type ℓ where
  ok : A → Outcome A
  thrown : Exception → Outcome A

abbrev pub Action : Type 0 → Type 0 → Type 0
Action S A = S → Outcome A × S

abbrev pub pure : {S A : Type 0} → A → Action S A
pure a s = (ok a, s)

abbrev pub throw : {S A : Type 0} → Exception → Action S A
throw e s = (thrown e, s)

abbrev pub and_then : {S A B : Type 0} → (A → Action S B) → Outcome A × S → Outcome B × S
and_then f (ok a, s) = f a s
and_then f (thrown e, s) = (thrown e, s)

infixl 5 ◌>>=◌ ◌>>◌
abbrev pub ◌>>=◌ : {S A B : Type 0} → Action S A → (A → Action S B) → Action S B
◌>>=◌ m f s = and_then f (m s)

abbrev pub ◌>>◌ : {S B : Type 0} → Action S (Unit {0}) → Action S B → Action S B
m >> k = m >>= λ _. k

pub ok_injective {ℓ} : {A : Type ℓ} {a b : A} → ok a ≡ ok b → a ≡ b
ok_injective h = cc

pub Outcome-cases {ℓ} :
    {A : Type ℓ} (r : Outcome A) → ((a : A) × (r ≡ ok a)) ⊎ ((x : Exception) × (r ≡ thrown x))
Outcome-cases (ok a) = inl (a, refl)
Outcome-cases (thrown x) = inr (x, refl)
