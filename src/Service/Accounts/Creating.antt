-- ===== src/Service/Accounts/Creating.antt =====
-- `GenerateUser` and `CreateUser` (WrongthinkServiceImpl.cpp), and the admins that they make.
use wrongthink.Base.{
  ℕ, String, Bool, true, false, Option, none, some, List, ◌≡◌, refl, arith, ◌||◌, any, any-append,
  length-filter_zero, Option-cases, inl, inr,
}
use wrongthink.Action.{Exception, Outcome, ok, thrown}
use wrongthink.Proto.{
  Status, StatusCode, ok_status, internal_status, WrongthinkUser, CreateUserRequest,
}
use wrongthink.Db.Engine.{Engine}
use wrongthink.Db.Tables.{User, Db, next_id}
use wrongthink.Db.Sql.Schema.{IsReady}
use wrongthink.Db.Users.{user_violation, create_user}
use wrongthink.Db.Users.Accounts.{
  granted, with_user, refused_user, create_user_created, create_user_refused,
}
use wrongthink.Service.{Service, on_db, answered}
use wrongthink.Service.Accounts.{generate_user, create_user_rpc}
use wrongthink.Service.Accounts.Dashes.{without_dashes, strip_dashes-eq-without_dashes}

-- The key of the new account.
abbrev pub user_key : Engine → Service → ℕ
user_key e s = next_id e (λ (u : User). u.user_id) s.db.users

module _ (e : Engine) (request : CreateUserRequest) (response : WrongthinkUser) (s : Service) where
  abbrev pub user_refusal : Option Exception
  user_refusal = user_violation e request.uname request.password s.db.users.rows

  abbrev pub user_result : Option Exception → Status × WrongthinkUser × Service
  user_result none = (
    ok_status,
    record response {
      userid = user_key e s;
      uname = request.uname;
      admin = granted s.db request.admin;
    },
    record s { db = with_user e request.uname request.password (granted s.db request.admin) s.db },
  )
  user_result (some x) = (internal_status, response, record s { db = refused_user e s.db })

  -- On a complete schema, a name that is new, and fits its column as the password does, gets an
  -- account, and the answer has its key, name and admin flag: the flag is the one asked for, but
  -- true while there is no admin. Any other is refused with INTERNAL, and only the sequence of keys
  -- may have moved.
  pub create_user_rpc_lem :
      IsReady s.db → create_user_rpc e request response s ≡ user_result user_refusal
  unfolding create_user_rpc
  create_user_rpc_lem ready = elim (Option-cases user_refusal) [
    | inl free ↦
        rw
          (create_user_created e request.uname request.password request.admin s.db ready free, free)
    | inr (x, refused) ↦ rw (
      create_user_refused e request.uname request.password request.admin s.db ready x refused,
      refused,
    )
  ]

-- The request for an account with the texts of two uuids, without their dashes, and no admin.
abbrev pub generated : String → String → CreateUserRequest
generated uuid1 uuid2 = record {
  uname = without_dashes uuid1;
  password = without_dashes uuid2;
  admin = false;
}

answered-same :
    {A R S : Type 0} (untouched : R) (f g : A → R) (p : Outcome A × S)
    → ((answered untouched f p).0 ≡ (answered untouched g p).0)
      × ((answered untouched f p).2 ≡ (answered untouched g p).2)
answered-same untouched f g (ok a, s) = (refl, refl)
answered-same untouched f g (thrown x, s) = (refl, refl)

-- `GenerateUser` is `CreateUser` with two uuids as name and password: the same status and the same
-- state after it, whatever the engine does.
pub generate_user-eq-create_user_rpc :
    (e : Engine) (uuid1 uuid2 : String) (response : WrongthinkUser) (s : Service)
    → ((generate_user e uuid1 uuid2 response s).0
        ≡ (create_user_rpc e (generated uuid1 uuid2) response s).0)
      × ((generate_user e uuid1 uuid2 response s).2
          ≡ (create_user_rpc e (generated uuid1 uuid2) response s).2)
unfolding generate_user create_user_rpc
generate_user-eq-create_user_rpc e uuid1 uuid2 response s =
    rw (strip_dashes-eq-without_dashes uuid1, strip_dashes-eq-without_dashes uuid2)
      (answered-same response _ _
        (on_db (create_user e (without_dashes uuid1) (without_dashes uuid2) false) s))

admin_granted :
    (rows : List User) (admin : Bool) (db : Db)
    → db.users.rows ≡ rows
    → (any (λ (u : User). u.admin) db.users.rows || granted db admin) ≡ true
admin_granted rows admin db h =
    rw (length-filter_zero (λ (u : User). u.admin) db.users.rows) (ground arith)

-- On a complete schema, after a call of `CreateUser` that answers OK there is an admin.
pub create_user_rpc-admin :
    (e : Engine) (request : CreateUserRequest) (response : WrongthinkUser) (s : Service)
    → IsReady s.db
    → (create_user_rpc e request response s).0.code ≡ StatusCode.ok
    → any (λ (u : User). u.admin) (create_user_rpc e request response s).2.db.users.rows ≡ true
unfolding any
create_user_rpc-admin e request response s ready answered_ok =
    elim (Option-cases (user_refusal e request response s)) [
      | inl free ↦
          rw
            (
              create_user_rpc_lem e request response s ready,
              free,
              any-append (λ (u : User). u.admin) s.db.users.rows,
            )
            (ground (arith, admin_granted s.db.users.rows request.admin s.db refl))
      | inr (x, refused) ↦
          let bad = (rw (create_user_rpc_lem e request response s ready, refused) at answered_ok) in
          cc
    ]
