-- ===== src/Db/Users/Accounts.antt =====
-- What the account operations do on a complete schema.
use wrongthink.Base.{
  ℕ, String, Bool, true, false, none, some, List, [], ◌∷◌, ◌≡◌, refl, ◌∙◌, arith, ◌&&◌, any, find?,
  filter, length, ◌==◌, eq_refl, find?-append_none, if◌then◌else◌,
}
use wrongthink.Action.{Exception, ok, thrown}
use wrongthink.Db.Engine.{Engine}
use wrongthink.Db.Tables.{User, Db, next_id, appended}
use wrongthink.Db.Sql.Schema.{IsReady}
use wrongthink.Db.Sql.{names_resolve}
use wrongthink.Db.Sql.Statements.{
  select_valid_user, select_admin_user, select_user_id, select_admin_count, insert_user,
  execute_ready,
}
use wrongthink.Db.Users.{
  named, matches, is_user_valid, is_user_admin, user_id_by_name, count_admins, user_violation,
  insert_user_row, create_user,
}

module _ (db : Db) (ready : IsReady db) where
  pub is_user_valid_ready :
      (uname token : String)
      → is_user_valid uname token db ≡ (ok (any (matches uname token) db.users.rows), db)
  unfolding is_user_valid names_resolve
  is_user_valid_ready uname token = execute_ready select_valid_user _ db ready refl

  pub is_user_admin_ready :
      (uname : String)
      → is_user_admin uname db ≡ (ok (any (λ u. named uname u && u.admin) db.users.rows), db)
  unfolding is_user_admin names_resolve
  is_user_admin_ready uname = execute_ready select_admin_user _ db ready refl

  pub user_id_by_name_ready :
      (uname : String)
      → user_id_by_name uname db ≡ (
        ok (elim (find? (named uname) db.users.rows) [ none ↦ none | some u ↦ some u.user_id ]),
        db,
      )
  unfolding user_id_by_name names_resolve
  user_id_by_name_ready uname = execute_ready select_user_id _ db ready refl

  pub count_admins_ready : count_admins db ≡ (ok (length (filter (λ u. u.admin) db.users.rows)), db)
  unfolding count_admins names_resolve
  count_admins_ready = execute_ready select_admin_count _ db ready refl

-- The admin flag of a new account: the first admin is made without asking.
abbrev pub granted : Db → Bool → Bool
granted db admin =
    if length (filter (λ (u : User). u.admin) db.users.rows) == 0 then true else admin

abbrev pub new_user : String → String → Bool → ℕ → User
new_user uname token admin id = record { user_id = id; uname = uname; token = token; admin = admin }

-- The database with one more account.
abbrev pub with_user : Engine → String → String → Bool → Db → Db
with_user e uname token admin db = record db {
  users = appended e (λ u. u.user_id) (new_user uname token admin) db.users;
}

-- The database after an account was refused: only the sequence may have moved.
abbrev pub refused_user : Engine → Db → Db
refused_user e db = record db {
  users = record db.users { sequence = e.after_failure db.users.sequence };
}

pub unnamed_before :
    (e : Engine) (uname token : String) (rows : List User)
    → user_violation e uname token rows ≡ none
    → any (named uname) rows ≡ false
unfolding user_violation
unnamed_before e uname token rows h = ground arith

module _ (e : Engine) (uname token : String) (admin : Bool) (db : Db) (ready : IsReady db) where
  pub insert_user_row_accepted :
      user_violation e uname token db.users.rows ≡ none
      → insert_user_row e uname token admin db ≡ (ok tt, with_user e uname token admin db)
  unfolding insert_user_row names_resolve
  insert_user_row_accepted h = execute_ready insert_user _ db ready refl ∙ rw h

  pub insert_user_row_refused :
      (violation : Exception)
      → user_violation e uname token db.users.rows ≡ some violation
      → insert_user_row e uname token admin db ≡ (thrown violation, refused_user e db)
  unfolding insert_user_row names_resolve
  insert_user_row_refused violation h = execute_ready insert_user _ db ready refl ∙ rw h

  pub with_user-IsReady : IsReady (with_user e uname token admin db)
  with_user-IsReady = ground arith

  pub find-with_user :
      user_violation e uname token db.users.rows ≡ none
      → find? (named uname) (with_user e uname token admin db).users.rows
        ≡ some (new_user uname token admin (next_id e (λ u. u.user_id) db.users))
  unfolding find?
  find-with_user h =
      rw
        (
          find?-append_none (named uname) db.users.rows
              (new_user uname token admin (next_id e (λ u. u.user_id) db.users) ∷ [])
              (unnamed_before e uname token db.users.rows h),
          eq_refl uname,
        )
        refl

module _ (e : Engine) (uname token : String) (admin : Bool) (db : Db) (ready : IsReady db) where
  -- A name that no constraint refuses gets an account, and the answer carries its key.
  pub create_user_created :
      user_violation e uname token db.users.rows ≡ none
      → create_user e uname token admin db ≡ (
        ok (next_id e (λ u. u.user_id) db.users, granted db admin),
        with_user e uname token (granted db admin) db,
      )
  unfolding create_user
  create_user_created h = rw (
    count_admins_ready db ready,
    insert_user_row_accepted e uname token (granted db admin) db ready h,
    user_id_by_name_ready (with_user e uname token (granted db admin) db)
        (with_user-IsReady e uname token (granted db admin) db ready) uname,
    find-with_user e uname token (granted db admin) db ready h,
  )

  pub create_user_refused :
      (violation : Exception)
      → user_violation e uname token db.users.rows ≡ some violation
      → create_user e uname token admin db ≡ (thrown violation, refused_user e db)
  unfolding create_user
  create_user_refused violation h = rw (
    count_admins_ready db ready,
    insert_user_row_refused e uname token (granted db admin) db ready violation h,
  )
