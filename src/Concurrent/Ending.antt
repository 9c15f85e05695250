-- ===== src/Concurrent/Ending.antt =====
-- Calls that run at once (Concurrent), each of which ends: it has only so many steps left.
use wrongthink.Base.{
  ℕ, ◌+◌, ◌-◌, ◌≤◌, sym, List, [], ◌∷◌, ◌==◌, arith, Bool-cases, inl, inr, ==→eq, if◌then◌else◌,
}
use wrongthink.Concurrent.{Pool, step, run}

-- How many steps of a schedule are those of one call.
unfoldable pub turns_of : {C : Type 0} → ℕ → List (ℕ × C) → ℕ
turns_of i [] = 0
turns_of i ((j, c) ∷ schedule) = (if j == i then 1 else 0) + turns_of i schedule

module _ {C P S : Type 0} (advance : C → P → S → P × S) (remaining : P → ℕ)
    (lessens : (c : C) (p : P) (s : S) → remaining (advance c p s).0 ≤ remaining p - 1) where
  step_turn :
      (i j : ℕ) (c : C) (s : Pool P S)
      → remaining ((step advance j c s).thread i)
        ≤ remaining (s.thread i) - (if j == i then 1 else 0)
  step_turn i j c s = elim (Bool-cases (j == i)) [
    | inl same ↦ rw (same, sym (==→eq j i same)) (lessens c (s.thread j) s.shared)
    | inr other ↦ rw other (omega (arith))
  ]

  -- A step of a call leaves it one fewer, and takes none from the others.
  pub remaining-run :
      (i : ℕ) (schedule : List (ℕ × C)) (s : Pool P S)
      → remaining ((run advance schedule s).thread i) ≤ remaining (s.thread i) - turns_of i schedule
  unfolding run turns_of
  remaining-run i [] s = omega (arith)
  remaining-run i ((j, c) ∷ schedule) s =
      omega (arith, remaining-run i schedule (step advance j c s), step_turn i j c s)
