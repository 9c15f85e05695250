-- ===== src/Db/Users/Login.antt =====
-- Accounts as a client sees them: who can log in and who is an admin after `createUser`.
use wrongthink.Base.{
  ℕ, String, Bool, none, [], ◌∷◌, ◌≡◌, ap, sym, ◌∙◌, arith, ◌&&◌, ◌||◌, any, str_eq, eq_refl,
  any-append, any-&&_false, Option-cases, inl, inr,
}
use wrongthink.Action.{Outcome, ok, ok_injective}
use wrongthink.Db.Engine.{Engine}
use wrongthink.Db.Tables.{User, Db, next_id}
use wrongthink.Db.Sql.Schema.{IsReady}
use wrongthink.Db.Users.{named, matches, is_user_valid, is_user_admin, user_violation, create_user}
use wrongthink.Db.Users.Accounts.{
  is_user_valid_ready, is_user_admin_ready, granted, new_user, with_user, with_user-IsReady,
  create_user_created, create_user_refused, unnamed_before,
}

module _ (e : Engine) (uname token : String) (admin : Bool) (db : Db) (ready : IsReady db) where
  -- A call that returns was refused by no constraint.
  pub violation_of_created :
      {r : ℕ × Bool}
      → (create_user e uname token admin db).0 ≡ ok r
      → user_violation e uname token db.users.rows ≡ none
  violation_of_created h = elim (Option-cases (user_violation e uname token db.users.rows)) [
    | inl free ↦ free
    | inr (v, refused) ↦ cc (
        ap (λ (p : Outcome (ℕ × Bool) × Db). p.0)
          (create_user_refused e uname token admin db ready v refused))
  ]

  -- On a complete schema, after a call that returns, a name and a token log in if they did before,
  -- or if they are those of the new account; and no others do.
  pub create_user-is_user_valid :
      {r : ℕ × Bool} (n t : String) (before : Bool)
      → (create_user e uname token admin db).0 ≡ ok r
      → (is_user_valid n t db).0 ≡ ok before
      → (is_user_valid n t (create_user e uname token admin db).1).0
        ≡ ok (before || (str_eq n uname && str_eq t token))
  unfolding any
  create_user-is_user_valid n t before h b =
      let free = violation_of_created h in
      let old : any (matches n t) db.users.rows ≡ before =
        ok_injective
          (ap (λ (p : Outcome Bool × Db). p.0) (sym (is_user_valid_ready db ready n t)) ∙ b) in
      rw
        (
          create_user_created e uname token admin db ready free,
          is_user_valid_ready (with_user e uname token (granted db admin) db)
              (with_user-IsReady e uname token (granted db admin) db ready) n t,
          any-append (matches n t) db.users.rows
              (new_user uname token (granted db admin) (next_id e (λ u. u.user_id) db.users) ∷ []),
          old,
        )
        (ground arith)

  -- After a call that returns, the account is an admin exactly if the call says so.
  pub create_user-is_user_admin :
      {r : ℕ × Bool}
      → (create_user e uname token admin db).0 ≡ ok r
      → (is_user_admin uname (create_user e uname token admin db).1).0 ≡ ok r.1
  unfolding any
  create_user-is_user_admin {r} h =
      let free = violation_of_created h in
      let flag : granted db admin ≡ r.1 =
        ap (λ (x : ℕ × Bool). x.1)
          (ok_injective (
            ap (λ (p : Outcome (ℕ × Bool) × Db). p.0)
              (sym (create_user_created e uname token admin db ready free))
            ∙ h)) in
      rw
        (
          create_user_created e uname token admin db ready free,
          is_user_admin_ready (with_user e uname token (granted db admin) db)
              (with_user-IsReady e uname token (granted db admin) db ready) uname,
          any-append (λ (u : User). named uname u && u.admin) db.users.rows
              (new_user uname token (granted db admin) (next_id e (λ u. u.user_id) db.users) ∷ []),
          any-&&_false (named uname) (λ (u : User). u.admin) db.users.rows
              (unnamed_before e uname token db.users.rows free),
          eq_refl uname,
        )
        (ground (arith, flag))
