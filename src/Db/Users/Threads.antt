-- ===== src/Db/Users/Threads.antt =====
-- Calls of `createUser` (DB/DBPostgres.cpp) that run at once, each on a session of its own: between
-- the statements of one call, the statements of others run.
pub mod Alone
pub mod Interleaved
pub mod Races
use wrongthink.Base.{
  ℕ, String, Bool, true, false, Option, none, some, get_or, List, [], ◌∷◌, ◌==◌, if◌then◌else◌,
}
use wrongthink.Concurrent.{Pool, turns, run}
use wrongthink.Action.{Exception, Outcome, ok, thrown}
use wrongthink.Db.Engine.{Engine}
use wrongthink.Db.Tables.{Db}
use wrongthink.Db.Users.{count_admins, insert_user_row, user_id_by_name}

-- The statement that a call runs next, with its variables, or how it ended.
pub data Creating : Type 0 where
  counting : String → String → Bool → Creating
  inserting : String → String → Bool → Creating
  selecting : String → Bool → Creating
  answered : String → ℕ → Bool → Creating
  failed : Exception → Creating

abbrev pub after : {A : Type 0} → (A → Creating) → Outcome A × Db → Creating × Db
after f (ok a, db) = (f a, db)
after f (thrown x, db) = (failed x, db)

-- One statement.
unfoldable pub advance : Engine → Creating → Db → Creating × Db
advance e (counting uname token admin) db =
    after (λ adminct. inserting uname token (if adminct == 0 then true else admin))
      (count_admins db)
advance e (inserting uname token admin) db =
    after (λ done. selecting uname admin) (insert_user_row e uname token admin db)
advance e (selecting uname admin) db =
    after (λ found. answered uname (get_or found 0) admin) (user_id_by_name uname db)
advance e (answered uname uid admin) db = (answered uname uid admin, db)
advance e (failed x) db = (failed x, db)

abbrev pub Calls : Type 0
Calls = Pool Creating Db

-- The statements run in the order of a schedule, which names the call that each belongs to.
abbrev pub run_calls : Engine → List ℕ → Calls → Calls
run_calls e schedule s = run (λ (u : Unit {0}). advance e) (turns schedule) s
