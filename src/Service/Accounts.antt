-- ===== src/Service/Accounts.antt =====
-- The handlers `GenerateUser`, `CreateUser` and `BanUser` (WrongthinkServiceImpl.cpp).
pub mod Dashes
pub mod Banning
pub mod Creating
pub mod Guarding
use wrongthink.Base.{ℕ, String, Bool, false, Option, none, some, if◌then◌else◌}
use wrongthink.Base.Int.{ℤ}
use wrongthink.Action.{Action, Outcome, pure, throw, ◌>>=◌, ◌>>◌, user_not_found}
use wrongthink.Proto.{
  Status, ok_status, unauthenticated_status, WrongthinkUser, BanUserRequest, GenericResponse,
  CreateUserRequest,
}
use wrongthink.Auth.{Metadata, has_credentials, get_credentials}
use wrongthink.Db.Engine.{Engine}
use wrongthink.Db.Users.{is_user_valid, is_user_admin, create_user}
use wrongthink.Db.Bans.{ban_user}
use wrongthink.Service.{Service, on_db, answered, caught_with}
use wrongthink.Service.Accounts.Dashes.{strip_dashes}

-- `uuid1` and `uuid2` are the texts of the two generated uuids.
pub generate_user :
    Engine → String → String → WrongthinkUser → Service → Status × WrongthinkUser × Service
generate_user e uuid1 uuid2 response s =
    let id = strip_dashes uuid1 in
    let id2 = strip_dashes uuid2 in
    answered response (λ r. record response { uname = id; token = id2; admin = r.1; userid = r.0 })
      (on_db (create_user e id id2 false) s)

pub create_user_rpc :
    Engine → CreateUserRequest → WrongthinkUser → Service → Status × WrongthinkUser × Service
create_user_rpc e request response s =
    answered response (λ r. record response { userid = r.0; uname = request.uname; admin = r.1 })
      (on_db (create_user e request.uname request.password request.admin) s)

-- The checks of `BanUser`, each with its early return, and the ban.
pub ban_authorised :
    Engine
    → ℕ
    → BanUserRequest
    → GenericResponse
    → Option (String × String)
    → Action Service (Status × GenericResponse)
ban_authorised e now request response none =
    pure (unauthenticated_status "No credentials attached to the channel", response)
ban_authorised e now request response (some (uname, token)) = do
  valid ← on_db (is_user_valid uname token)
  if valid
      then (do
        admin ← on_db (is_user_admin uname)
        if admin
            then (do
              on_db (ban_user e now request.uname request.days)
              pure (ok_status, record response { message = "test" }))
            else pure (unauthenticated_status "Invalid permission", response))
      else pure (unauthenticated_status "Invalid user", response)

pub ban_user_rpc :
    Engine
    → ℕ
    → Metadata
    → BanUserRequest
    → GenericResponse
    → Service
    → Status × GenericResponse × Service
unfolding ban_authorised
ban_user_rpc e now cmeta request response s = caught_with response (
    ban_authorised e now request response
      (if has_credentials cmeta then get_credentials cmeta else none) s)
