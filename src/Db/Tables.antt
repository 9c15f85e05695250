-- ===== src/Db/Tables.antt =====
-- The seven tables that `validate` creates (DB/DBPostgres.cpp, DB/DBSQLite.cpp), and the rows in
-- them. A column with an integer key is a number below 2 ^ 32, the pattern of the `int`.
use wrongthink.Base.{ℕ, suc, String, Bool, Option, none, some, List, [], ◌∷◌, ◌++◌, map}
use wrongthink.Base.Int.{ℤ}
use wrongthink.Action.{Outcome, ok, thrown, Exception}
use wrongthink.Db.Engine.{Engine}

pub record User : Type 0 where
  pub user_id : ℕ
  pub uname : String
  pub token : String
  pub admin : Bool

pub record BannedUser : Type 0 where
  pub entry_id : ℕ
  pub user_id : ℕ
  pub expire : ℤ

pub record BannedIp : Type 0 where
  pub entry_id : ℕ
  pub ip : String
  pub expire : ℤ

pub record Community : Type 0 where
  pub community_id : ℕ
  pub name : String
  pub admin : ℕ
  pub public : Bool

pub record Channel : Type 0 where
  pub channel_id : ℕ
  pub name : String
  pub community : ℕ
  pub admin : ℕ
  pub allow_anon : Bool

pub record Message : Type 0 where
  pub msg_id : ℕ
  pub user_id : ℕ
  pub channel : ℕ
  pub thread_id : ℕ
  pub thread_child : Bool
  pub edited : Bool
  pub mtext : String
  pub mdate : ℕ

pub record ControlMessage : Type 0 where
  pub msg_id : ℕ
  pub user_id : ℕ
  pub channel : ℕ
  pub type : Option String
  pub mtext : String
  pub mdate : ℕ

-- Whether the table exists, its rows in the order of insertion, and the next value of its sequence.
pub record Table (R : Type 0) : Type 0 where
  pub exists : Bool
  pub rows : List R
  pub sequence : ℕ

pub record Db : Type 0 where
  pub users : Table User
  pub banned_users : Table BannedUser
  pub banned_ips : Table BannedIp
  pub communities : Table Community
  pub channels : Table Channel
  pub message : Table Message
  pub control_message : Table ControlMessage

module _ {R : Type 0} where
  -- The key that an insert into the table takes.
  abbrev pub next_id : Engine → (R → ℕ) → Table R → ℕ
  next_id e key t = e.new_id t.sequence (map key t.rows)

  -- An insert that no constraint refuses.
  abbrev pub appended : Engine → (R → ℕ) → (ℕ → R) → Table R → Table R
  appended e key row t = record t {
    rows = t.rows ++ row (next_id e key t) ∷ [];
    sequence = suc t.sequence;
  }

  -- An insert with the constraint that it violates, if any.
  abbrev pub insert :
      Engine → (R → ℕ) → (ℕ → R) → Option Exception → Table R → Outcome (Unit {0}) × Table R
  insert e key row none t = (ok tt, appended e key row t)
  insert e key row (some violation) t =
      (thrown violation, record t { sequence = e.after_failure t.sequence })
