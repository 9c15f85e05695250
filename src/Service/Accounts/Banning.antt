-- ===== src/Service/Accounts/Banning.antt =====
-- Who may ban whom: `BanUser` (WrongthinkServiceImpl.cpp) on every branch.
use wrongthink.Base.{
  ℕ, String, Bool, List, [], ◌∷◌, str_eq, eq_iff, arith, any-&&_false, true, false, some, ◌≡◌, refl,
  sym, ◌∙◌, ◌⊎◌, inl, inr, Bool-cases, ◌&&◌, any,
}
use wrongthink.Action.{Outcome, ok, thrown, pure, and_then}
use wrongthink.Proto.{
  Status, StatusCode, ok_status, internal_status, unauthenticated_status, BanUserRequest,
  GenericResponse,
}
use wrongthink.Auth.{Metadata, has_credentials, get_credentials}
use wrongthink.Auth.Credentials.{get_credentials_safe}
use wrongthink.Db.Engine.{Engine}
use wrongthink.Db.Tables.{User, Db}
use wrongthink.Db.Relations.{IsUnique}
use wrongthink.Db.Sql.Schema.{IsReady}
use wrongthink.Db.Users.{named, matches}
use wrongthink.Db.Users.Accounts.{is_user_valid_ready, is_user_admin_ready}
use wrongthink.Db.Bans.{ban_user}
use wrongthink.Service.{Service, caught_with}
use wrongthink.Service.Accounts.{ban_user_rpc}

-- An account of this name, with this token, that is an admin.
abbrev pub is_admin_login : String → String → User → Bool
is_admin_login uname token u = str_eq uname u.uname && (str_eq token u.token && u.admin)

-- The call carries the name and the token of an account of the table that is an admin.
pub record IsAuthorised (cmeta : Metadata) (db : Db) : Type 0 where
  pub uname : String
  pub token : String
  pub attached : get_credentials cmeta ≡ some (uname, token)
  pub admin : any (is_admin_login uname token) db.users.rows ≡ true

unnamed :
    (uname : String) (u : User) (us : List User)
    → uname ≡ u.uname
    → any (λ (x : User). str_eq x.uname u.uname) us ≡ false
    → any (named uname) us ≡ false
unfolding any
unnamed uname u [] same h = refl
unnamed uname u (x ∷ xs) same h = elim (Bool-cases (named uname x)) [
  | inr other ↦ ground (arith, other, unnamed uname u xs same)
  | inl hit ↦
      let again : str_eq x.uname u.uname ≡ true =
        (eq_iff x.uname u.uname).1 (sym ((eq_iff uname x.uname).0 hit) ∙ same) in
      absurd (ground (arith, again, h))
]

-- Where names are unique, the account with the token is the one that is an admin.
same_account :
    (uname token : String) (us : List User)
    → IsUnique (λ (u : User). u.uname) us
    → any (matches uname token) us ≡ true
    → any (λ u. named uname u && u.admin) us ≡ true
    → any (is_admin_login uname token) us ≡ true
unfolding any
same_account uname token [] unique valid admin = valid
same_account uname token (u ∷ us) unique valid admin = elim (Bool-cases (named uname u)) [
  | inr other ↦ ground (arith, other, same_account uname token us unique.1)
  | inl same ↦
      let alone = unnamed uname u us ((eq_iff uname u.uname).0 same) unique.0 in
      let no_valid = any-&&_false (named uname) (λ (x : User). str_eq token x.token) us alone in
      let no_admin = any-&&_false (named uname) (λ (x : User). x.admin) us alone in
      ground (arith, same, no_valid, no_admin, valid, admin)
]

login-valid :
    (uname token : String) (us : List User)
    → any (is_admin_login uname token) us ≡ true
    → any (matches uname token) us ≡ true
unfolding any
login-valid uname token [] h = h
login-valid uname token (u ∷ us) h = ground (arith, login-valid uname token us)

login-admin :
    (uname token : String) (us : List User)
    → any (is_admin_login uname token) us ≡ true
    → any (λ u. named uname u && u.admin) us ≡ true
unfolding any
login-admin uname token [] h = h
login-admin uname token (u ∷ us) h = ground (arith, login-admin uname token us)

-- What the call answers for the outcome of the ban.
abbrev pub ban_status : Outcome (Unit {0}) → Status
ban_status (ok u) = ok_status
ban_status (thrown x) = internal_status

abbrev pub ban_response : GenericResponse → Outcome (Unit {0}) → GenericResponse
ban_response response (ok u) = record response { message = "test" }
ban_response response (thrown x) = response

finish :
    (r : Outcome (Unit {0})) (response : GenericResponse) (db' : Db) (s : Service)
    → caught_with response (
        and_then
          (λ _. pure (ok_status, record response { message = "test" }))
          (r, record s { db = db' }))
      ≡ (ban_status r, ban_response response r, record s { db = db' })
finish (ok u) response db' s = refl
finish (thrown x) response db' s = refl

module _ (e : Engine) (now : ℕ) (cmeta : Metadata) (request : BanUserRequest)
    (response : GenericResponse) (s : Service) (ready : IsReady s.db) where
  pub missing :
      has_credentials cmeta ≡ false
      → ban_user_rpc e now cmeta request response s
        ≡ (unauthenticated_status "No credentials attached to the channel", response, s)
  unfolding ban_user_rpc
  missing h = rw h

  module _ (uname token : String) (here : has_credentials cmeta ≡ true)
      (attached : get_credentials cmeta ≡ some (uname, token)) where
    invalid :
        any (matches uname token) s.db.users.rows ≡ false
        → ban_user_rpc e now cmeta request response s
          ≡ (unauthenticated_status "Invalid user", response, s)
    unfolding ban_user_rpc
    invalid h = rw (here, attached, is_user_valid_ready s.db ready uname token, h)

    not_admin :
        any (matches uname token) s.db.users.rows ≡ true
        → any (λ u. named uname u && u.admin) s.db.users.rows ≡ false
        → ban_user_rpc e now cmeta request response s
          ≡ (unauthenticated_status "Invalid permission", response, s)
    unfolding ban_user_rpc
    not_admin h k = rw (
      here,
      attached,
      is_user_valid_ready s.db ready uname token,
      h,
      is_user_admin_ready s.db ready uname,
      k,
    )

    allowed :
        any (matches uname token) s.db.users.rows ≡ true
        → any (λ u. named uname u && u.admin) s.db.users.rows ≡ true
        → ban_user_rpc e now cmeta request response s ≡ (
          ban_status (ban_user e now request.uname request.days s.db).0,
          ban_response response (ban_user e now request.uname request.days s.db).0,
          record s { db = (ban_user e now request.uname request.days s.db).1 },
        )
    unfolding ban_user_rpc
    allowed h k =
        rw
          (
            here,
            attached,
            is_user_valid_ready s.db ready uname token,
            h,
            is_user_admin_ready s.db ready uname,
            k,
          )
          (finish (ban_user e now request.uname request.days s.db).0 response
            (ban_user e now request.uname request.days s.db).1 s)

  -- On a complete schema in which names of accounts are unique, either the call carries the name and
  -- the token of one account, which is an admin, or it answers UNAUTHENTICATED and leaves the
  -- database and the live channels as they were.
  pub ban_user_rpc_guarded :
      IsUnique (λ (u : User). u.uname) s.db.users.rows
      → IsAuthorised cmeta s.db
        ⊎ (((ban_user_rpc e now cmeta request response s).0.code ≡ StatusCode.unauthenticated)
            × ((ban_user_rpc e now cmeta request response s).2 ≡ s))
  ban_user_rpc_guarded unique = elim (Bool-cases (has_credentials cmeta)) [
    | inr none_there ↦ inr (rw (missing none_there) refl, rw (missing none_there) refl)
    | inl here ↦
        let ((uname, token), attached) = get_credentials_safe cmeta here in
        elim (Bool-cases (any (matches uname token) s.db.users.rows)) [
          | inr bad ↦ let e1 = invalid uname token here attached bad in inr (rw e1 refl, rw e1 refl)
          | inl good ↦ elim (Bool-cases (any (λ u. named uname u && u.admin) s.db.users.rows)) [
            | inr plain ↦
                let e2 = not_admin uname token here attached good plain in
                inr (rw e2 refl, rw e2 refl)
            | inl admin ↦ inl (record {
              uname = uname;
              token = token;
              attached = attached;
              admin = same_account uname token s.db.users.rows unique good admin;
            })
          ]
        ]
  ]

  -- On a complete schema, a call that carries the name and the token of an admin bans: it answers
  -- OK and fills in the response, or INTERNAL where the ban throws, and leaves the database as the
  -- ban does.
  pub ban_user_rpc_allowed :
      has_credentials cmeta ≡ true
      → IsAuthorised cmeta s.db
      → ban_user_rpc e now cmeta request response s ≡ (
        ban_status (ban_user e now request.uname request.days s.db).0,
        ban_response response (ban_user e now request.uname request.days s.db).0,
        record s { db = (ban_user e now request.uname request.days s.db).1 },
      )
  ban_user_rpc_allowed here a =
      allowed a.uname a.token here a.attached (login-valid a.uname a.token s.db.users.rows a.admin)
        (login-admin a.uname a.token s.db.users.rows a.admin)
