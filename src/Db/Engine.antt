-- ===== src/Db/Engine.antt =====
-- What the server relies on of a database engine and of SOCI, which are not in the repository: one
-- value of `Engine` for each backend. The laws are hypotheses of the theorems that need them.
use wrongthink.Base.{ℕ, ◌≤◌, ◌<◌, String, Bool, Option, List, All}
use wrongthink.Base.Int.{ℤ}

-- soci::indicator
pub data Indicator : Type 0 where
  i_ok i_null : Indicator

pub record Engine : Type 0 where
  -- The key of a new row, from the next value of the table's sequence and the keys in use.
  pub new_id : ℕ → List ℕ → ℕ
  -- The next value of a sequence after an insert that was refused.
  pub after_failure : ℕ → ℕ
  -- Whether a `varchar(n)` column takes the text.
  pub fits : ℕ → String → Bool
  -- Whether `references` clauses are enforced.
  pub enforces_references : Bool
  -- The sum of two `int` values in SQL; `none` is an error.
  pub int_add : ℤ → ℤ → Option ℤ
  -- An `int` column read into a `std::tm`, and one written from it; `none` is an error. A
  -- `std::tm` is modelled by the `time_t` that `std::mktime` makes of it. SOCI documents `std::tm`
  -- for columns of dates and times only, so no theorem assumes a law of these two.
  pub load_tm : ℤ → Option ℤ
  pub store_tm : ℤ → Option ℤ
  -- The indicator of a `soci::row` when the query selected no row.
  pub missing_row : Indicator

-- Keys of new rows are positive, above all keys in use, and not above the sequence.
pub record IssuesFreshIds (e : Engine) : Type 0 where
  pub above : (n : ℕ) (ids : List ℕ) → All (λ i. i < n) ids → All (λ i. i < e.new_id n ids) ids
  pub within : (n : ℕ) (ids : List ℕ) → All (λ i. i < n) ids → e.new_id n ids ≤ n
  pub positive : (n : ℕ) (ids : List ℕ) → 0 < n → 0 < e.new_id n ids
  pub grows : (n : ℕ) → n ≤ e.after_failure n
