-- ===== src/Tests/Accounts.antt =====
-- The properties of accounts and credentials, at the sample states.
use wrongthink.Base.{
  ℕ, Bool, true, false, some, [], ◌≡◌, refl, ap, any, filter, ◌⊎◌, ◌||◌, ◌&&◌, str_eq,
}
use wrongthink.Base.Int.{pos}
use wrongthink.Action.{Outcome, ok}
use wrongthink.Proto.{
  StatusCode, ok_status, WrongthinkUser, no_user, BanUserRequest, GenericResponse,
}
use wrongthink.Auth.{has_credentials, get_credentials, add_credentials, get_metadata}
use wrongthink.Auth.Credentials.{get_credentials-add_credentials}
use wrongthink.Db.Tables.{Db}
use wrongthink.Db.Users.Accounts.{is_user_valid_ready, create_user_created}
use wrongthink.Db.Users.{user_violation, is_user_valid, create_user}
use wrongthink.Db.Users.Login.{create_user-is_user_valid}
use wrongthink.Service.Accounts.{ban_user_rpc}
use wrongthink.Service.Accounts.Banning.{IsAuthorised, ban_user_rpc_guarded}
use wrongthink.Tests.Engines.{postgres}
use wrongthink.Tests.Samples.{chat, chat_db, chat-IsReady, bob_login}

abbrev ban_bob : BanUserRequest
ban_bob = record { uname = "bob"; days = pos 1 }

abbrev no_response : GenericResponse
no_response = record { message = "" }

ban_user_rpc_guarded_example :
    IsAuthorised bob_login chat_db
    ⊎ (((ban_user_rpc postgres 1600000000 bob_login ban_bob no_response chat).0.code
          ≡ StatusCode.unauthenticated)
        × ((ban_user_rpc postgres 1600000000 bob_login ban_bob no_response chat).2 ≡ chat))
unfolding any
ban_user_rpc_guarded_example =
    ban_user_rpc_guarded postgres 1600000000 bob_login ban_bob no_response chat chat-IsReady
      (refl, (refl, tt))

abbrev carol : WrongthinkUser
carol = record no_user { uname = "carol"; token = "pw" }

get_credentials-add_credentials_example :
    (has_credentials (add_credentials carol []) ≡ true)
    × (get_credentials (add_credentials carol []) ≡ some ("carol", "pw"))
    × (get_metadata (record { uname = "carol"; token = "pw" }) []
        ≡ (ok_status, add_credentials carol []))
unfolding any
get_credentials-add_credentials_example = get_credentials-add_credentials carol [] refl refl

carol_created : (create_user postgres "carol" "pw" false chat_db).0 ≡ ok (3, false)
unfolding user_violation any filter
carol_created =
    ap (λ (p : Outcome (ℕ × Bool) × Db). p.0)
      (create_user_created postgres "carol" "pw" false chat_db chat-IsReady refl)

create_user-is_user_valid_example :
    (is_user_valid "carol" "pw" (create_user postgres "carol" "pw" false chat_db).1).0
    ≡ ok (false || (str_eq "carol" "carol" && str_eq "pw" "pw"))
unfolding any
create_user-is_user_valid_example =
    create_user-is_user_valid postgres "carol" "pw" false chat_db chat-IsReady "carol" "pw" false
      carol_created
      (ap (λ (p : Outcome Bool × Db). p.0) (is_user_valid_ready chat_db chat-IsReady "carol" "pw"))
