-- ===== src/Action/Outcomes.antt =====
-- Code that may throw and changes no state.
use wrongthink.Action.{Outcome, ok, thrown}

infixl 5 ◌>>=◌
abbrev pub ◌>>=◌ : {A B : Type 0} → Outcome A → (A → Outcome B) → Outcome B
ok a >>= f = f a
thrown e >>= f = thrown e
