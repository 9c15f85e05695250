-- ===== src/Db/Users/Threads/Alone.antt =====
-- A call of `createUser` that no other interrupts (DB/DBPostgres.cpp).
use wrongthink.Base.{ℕ, String, Bool, ◌≡◌, refl, true, Option, get_or, if◌then◌else◌, ◌==◌}
use wrongthink.Action.{Outcome, ok, thrown, pure, and_then}
use wrongthink.Db.Engine.{Engine}
use wrongthink.Db.Tables.{Db}
use wrongthink.Db.Users.{create_user, count_admins, insert_user_row, user_id_by_name}
use wrongthink.Db.Users.Threads.{Creating, counting, inserting, selecting, answered, after, advance}

-- The call after its next statement, on the database that the statement leaves.
abbrev next : Engine → Creating × Db → Creating × Db
next e (p, db) = advance e p db

abbrev pub three_steps : Engine → Creating → Db → Creating × Db
three_steps e p db = next e (next e (advance e p db))

abbrev pub returned : String → ℕ × Bool → Creating
returned uname r = answered uname r.0 r.1

select_last :
    (uname : String) (admin : Bool) (r : Outcome (Option ℕ) × Db)
    → after (λ found. answered uname (get_or found 0) admin) r
      ≡ after (returned uname) (and_then (λ found. pure (get_or found 0, admin)) r)
select_last uname admin (ok found, db) = refl
select_last uname admin (thrown x, db) = refl

after_insert :
    (e : Engine) (uname : String) (admin : Bool) (r : Outcome (Unit {0}) × Db)
    → next e (after (λ done. selecting uname admin) r)
      ≡ after (returned uname) (
          and_then
            (λ done.
              λ db. and_then (λ found. pure (get_or found 0, admin)) (user_id_by_name uname db))
            r)
unfolding advance
after_insert e uname admin (ok done, db) = select_last uname admin (user_id_by_name uname db)
after_insert e uname admin (thrown x, db) = refl

after_count :
    (e : Engine) (uname token : String) (admin : Bool) (r : Outcome ℕ × Db)
    → next e
        (next e (after (λ adminct. inserting uname token (if adminct == 0 then true else admin)) r))
      ≡ after (returned uname) (
          and_then
            (λ adminct. λ db.
              and_then
                (λ done. λ db.
                  and_then
                    (λ found. pure (get_or found 0, if adminct == 0 then true else admin))
                    (user_id_by_name uname db))
                (insert_user_row e uname token (if adminct == 0 then true else admin) db))
            r)
unfolding advance
after_count e uname token admin (ok n, db) =
    after_insert e uname (if n == 0 then true else admin)
      (insert_user_row e uname token (if n == 0 then true else admin) db)
after_count e uname token admin (thrown x, db) = refl

-- The three statements of a call, run one after the other with no other call between them, do to
-- the tables and answer just what `createUser` does, exceptions included.
pub three_steps-eq-create_user :
    (e : Engine) (uname token : String) (admin : Bool) (db : Db)
    → three_steps e (counting uname token admin) db
      ≡ after (returned uname) (create_user e uname token admin db)
unfolding advance create_user
three_steps-eq-create_user e uname token admin db =
    after_count e uname token admin (count_admins db)
