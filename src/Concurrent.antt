-- ===== src/Concurrent.antt =====
-- Calls that run at once on a state that they share, as the handlers of WrongthinkServiceImpl.cpp do on
-- the threads of the server: each runs step by step, and the steps come in any order.
pub mod Ending
use mathlib.Core.Path.{subst}
use wrongthink.Base.{ℕ, List, [], ◌∷◌, ◌==◌, ==→eq, ◌≡◌, Bool-cases, inl, inr, if◌then◌else◌}

-- The calls by number, each at some point of its code, and the state.
pub record Pool (P S : Type 0) : Type 0 where
  pub shared : S
  pub thread : ℕ → P

abbrev pub put : {P : Type 0} → ℕ → P → (ℕ → P) → ℕ → P
put i p thread j = if i == j then p else thread j

-- Two calls.
abbrev pub two : {P : Type 0} → P → P → ℕ → P
two p q i = if i == 0 then p else q

-- A schedule of calls whose steps read nothing from outside.
abbrev pub turns : List ℕ → List (ℕ × Unit {0})
turns [] = []
turns (i ∷ is) = (i, tt) ∷ turns is

-- `advance` is one step of a call, which may read a value from outside, such as a clock.
module _ {C P S : Type 0} (advance : C → P → S → P × S) where
  abbrev pub step : ℕ → C → Pool P S → Pool P S
  step i c s = record {
    shared = (advance c (s.thread i) s.shared).1;
    thread = put i (advance c (s.thread i) s.shared).0 s.thread;
  }

  -- The steps run in the order of a schedule, which names the call that each belongs to.
  unfoldable pub run : List (ℕ × C) → Pool P S → Pool P S
  run [] s = s
  run ((i, c) ∷ schedule) s = run schedule (step i c s)

-- The state is good, and each call is backed by it.
pub record IsBackedPool {P S : Type 0} (Good : S → Type 0) (Backed : S → P → Type 0) (s : Pool P S)
    : Type 0 where
  pub good : Good s.shared
  pub backed : (i : ℕ) → Backed s.shared (s.thread i)

-- A step that was run: the state is good, the call is backed, and what the step did, `Later`, is
-- something that takes no other call's backing away.
pub record IsStepped {P S : Type 0} (Good : S → Type 0) (Backed : S → P → Type 0)
    (Later : S → S → Type 0) (s : S) (r : P × S) : Type 0 where
  pub good : Good r.1
  pub backed : Backed r.1 r.0
  pub later : Later s r.1

module _ {C P S : Type 0} (advance : C → P → S → P × S) (Good : S → Type 0)
    (Backed : S → P → Type 0) (Later : S → S → Type 0)
    (steps : (c : C) (p : P) (s : S)
      → Good s
      → Backed s p
      → IsStepped Good Backed Later s (advance c p s))
    (keeps : (s t : S) (p : P) → Later s t → Backed s p → Backed t p) where
  pub step-IsBackedPool :
      (i : ℕ) (c : C) (s : Pool P S)
      → IsBackedPool Good Backed s
      → IsBackedPool Good Backed (step advance i c s)
  step-IsBackedPool i c s v =
      let a = steps c (s.thread i) s.shared v.good (v.backed i) in
      record {
        good = a.good;
        backed = λ j. elim (Bool-cases (i == j)) [
          | inl same ↦ rw same (a.backed)
          | inr other ↦ rw other (keeps s.shared _ (s.thread j) a.later (v.backed j))
        ];
      }

  -- In any order of the steps.
  pub run-IsBackedPool :
      (schedule : List (ℕ × C)) (s : Pool P S)
      → IsBackedPool Good Backed s
      → IsBackedPool Good Backed (run advance schedule s)
  unfolding run
  run-IsBackedPool [] s v = v
  run-IsBackedPool ((i, c) ∷ schedule) s v =
      run-IsBackedPool schedule (step advance i c s) (step-IsBackedPool i c s v)

-- What is asked of each call by its number, and does not depend on the state, holds after any steps,
-- where each step of a call keeps it on a pool that some invariant describes.
module _ {C P S : Type 0} (advance : C → P → S → P × S) (Inv : Pool P S → Type 0)
    (Asked : ℕ → P → Type 0)
    (keeps : (i : ℕ) (c : C) (s : Pool P S) → Inv s → Inv (step advance i c s))
    (asks : (i : ℕ) (c : C) (s : Pool P S)
      → Inv s
      → Asked i (s.thread i)
      → Asked i (advance c (s.thread i) s.shared).0) where
  step-Asked :
      (i : ℕ) (c : C) (s : Pool P S)
      → Inv s
      → ((j : ℕ) → Asked j (s.thread j))
      → (j : ℕ) → Asked j ((step advance i c s).thread j)
  step-Asked i c s v asked j = elim (Bool-cases (i == j)) [
    | inl same ↦ rw same (
        subst (λ k. Asked k (advance c (s.thread i) s.shared).0) (==→eq i j same)
          (asks i c s v (asked i)))
    | inr other ↦ rw other (asked j)
  ]

  pub run-Asked :
      (schedule : List (ℕ × C)) (s : Pool P S)
      → Inv s
      → ((j : ℕ) → Asked j (s.thread j))
      → (j : ℕ) → Asked j ((run advance schedule s).thread j)
  unfolding run
  run-Asked [] s v asked = asked
  run-Asked ((i, c) ∷ schedule) s v asked =
      run-Asked schedule (step advance i c s) (keeps i c s v) (step-Asked i c s v asked)
