-- ===== src/Db/Users/Threads/Races.antt =====
-- Two calls of `createUser` at once on a server without admins (DB/DBPostgres.cpp).
use mathlib.Core.List.{append_assoc}
use wrongthink.Base.{
  ℕ, String, true, false, none, List, [], ◌∷◌, ◌++◌, ◌≡◌, refl, arith, any, any-append,
  length-filter_zero, str_eq,
}
use wrongthink.Concurrent.{two, run}
use wrongthink.Db.Engine.{Engine}
use wrongthink.Db.Tables.{User, Db, next_id}
use wrongthink.Db.Sql.Schema.{IsReady}
use wrongthink.Db.Users.{named, user_violation}
use wrongthink.Db.Users.Accounts.{
  count_admins_ready, user_id_by_name_ready, insert_user_row_accepted, find-with_user, with_user,
  with_user-IsReady, new_user,
}
use wrongthink.Db.Users.Threads.{counting, inserting, selecting, answered, advance, run_calls}
use wrongthink.Db.Users.Threads.Interleaved.{has_admin}

module _ (e : Engine) (uname token : String) (db : Db) (ready : IsReady db) where
  advance_count :
      has_admin db.users.rows ≡ false
      → advance e (counting uname token false) db ≡ (inserting uname token true, db)
  unfolding advance
  advance_count h =
      rw (count_admins_ready db ready, length-filter_zero (λ (u : User). u.admin) db.users.rows, h)
        refl

  advance_accepted :
      user_violation e uname token db.users.rows ≡ none
      → advance e (inserting uname token true) db
        ≡ (selecting uname true, with_user e uname token true db)
  unfolding advance
  advance_accepted h = rw (insert_user_row_accepted e uname token true db ready h)

  advance_select :
      user_violation e uname token db.users.rows ≡ none
      → advance e (selecting uname true) (with_user e uname token true db) ≡ (
        answered uname (next_id e (λ u. u.user_id) db.users) true,
        with_user e uname token true db,
      )
  unfolding advance
  advance_select h = rw (
    user_id_by_name_ready (with_user e uname token true db)
        (with_user-IsReady e uname token true db ready) uname,
    find-with_user e uname token true db ready h,
  )

  still_free :
      (u : User)
      → str_eq uname u.uname ≡ false
      → user_violation e uname token db.users.rows ≡ none
      → user_violation e uname token (db.users.rows ++ u ∷ []) ≡ none
  unfolding user_violation any
  still_free u other h =
      rw (any-append (named uname) db.users.rows (u ∷ [])) (ground (arith, other, h))

-- Each call runs a statement in turn.
abbrev pub in_turn : List ℕ
in_turn = 0 ∷ 1 ∷ 0 ∷ 0 ∷ 1 ∷ 1 ∷ []

-- On a complete schema without admins, two calls that ask for accounts that are no admins, with
-- different names that no constraint refuses, both make an admin if each counts before the other
-- inserts: both answers say so, and behind the accounts of before the table has the two, as admins.
pub two-run_calls :
    (e : Engine) (uname1 token1 uname2 token2 : String) (db : Db)
    → IsReady db
    → has_admin db.users.rows ≡ false
    → user_violation e uname1 token1 db.users.rows ≡ none
    → user_violation e uname2 token2 db.users.rows ≡ none
    → str_eq uname2 uname1 ≡ false
    → let s = run_calls e in_turn (record {
      shared = db;
      thread = two (counting uname1 token1 false) (counting uname2 token2 false);
    }) in
      (s.thread 0 ≡ answered uname1 (next_id e (λ u. u.user_id) db.users) true)
      × (s.thread 1
          ≡ answered uname2
              (next_id e (λ u. u.user_id) (with_user e uname1 token1 true db).users)
              true)
      × (s.shared.users.rows
          ≡ db.users.rows
            ++ new_user uname1 token1 true (next_id e (λ u. u.user_id) db.users)
              ∷ new_user uname2 token2 true
                  (next_id e (λ u. u.user_id) (with_user e uname1 token1 true db).users)
              ∷ [])
unfolding run
two-run_calls e uname1 token1 uname2 token2 db ready none_yet free1 free2 other =
    let db1 = with_user e uname1 token1 true db in
    let ready1 = with_user-IsReady e uname1 token1 true db ready in
    let free2' =
      still_free e uname2 token2 db ready
        (new_user uname1 token1 true (next_id e (λ u. u.user_id) db.users)) other free2 in
    rw
      (
        advance_count e uname1 token1 db ready none_yet,
        advance_count e uname2 token2 db ready none_yet,
        advance_accepted e uname1 token1 db ready free1,
        advance_select e uname1 token1 db ready free1,
        advance_accepted e uname2 token2 db1 ready1 free2',
        advance_select e uname2 token2 db1 ready1 free2',
      )
      (refl, refl, append_assoc db.users.rows _ _)
