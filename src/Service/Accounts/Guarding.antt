-- ===== src/Service/Accounts/Guarding.antt =====
-- Calls of `BanUser` (WrongthinkServiceImpl.cpp) on threads of their own: between the checks of one
-- call, and the statements of its ban, those of others run.
use wrongthink.Base.{
  ℕ, String, Bool, true, false, Option, none, some, ◌≡◌, refl, ap, ◌∙◌, if◌then◌else◌,
}
use wrongthink.Action.{Action, Outcome, ok, thrown, pure, and_then, ◌>>=◌, ◌>>◌}
use wrongthink.Proto.{
  Status, ok_status, internal_status, unauthenticated_status, BanUserRequest, GenericResponse,
}
use wrongthink.Auth.{Metadata, has_credentials, get_credentials}
use wrongthink.Db.Engine.{Engine}
use wrongthink.Db.Tables.{Db}
use wrongthink.Db.Users.{is_user_valid, is_user_admin}
use wrongthink.Db.Bans.{ban_user}
use wrongthink.Db.Bans.Threads as Threads
use wrongthink.Db.Bans.Threads.{Banning, finding, checking, extending, inserting, banned}
use wrongthink.Service.{Service, on_db, caught_with}
use wrongthink.Service.Accounts.{ban_authorised, ban_user_rpc}

-- What a call does next, with the name and the token that it carries, or how it ended.
pub data Guarding : Type 0 where
  validating admitting : String → String → BanUserRequest → Guarding
  banning : String → String → Banning → Guarding
  denied : Status → Guarding

abbrev pub after : {A : Type 0} → (A → Guarding) → Outcome A × Db → Guarding × Db
after f (ok a, db) = (f a, db)
after f (thrown x, db) = (denied internal_status, db)

abbrev pub if_valid : String → String → BanUserRequest → Bool → Guarding
if_valid uname token request valid =
    if valid then admitting uname token request else denied (unauthenticated_status "Invalid user")

abbrev pub if_admin : String → String → BanUserRequest → Bool → Guarding
if_admin uname token request admin =
    if admin
    then banning uname token (finding request.uname request.days)
    else denied (unauthenticated_status "Invalid permission")

abbrev pub as_ban : String → String → Banning × Db → Guarding × Db
as_ban uname token (p, db) = (banning uname token p, db)

-- Where a call begins: without credentials it ends at once.
abbrev pub guarded : BanUserRequest → Option (String × String) → Guarding
guarded request none = denied (unauthenticated_status "No credentials attached to the channel")
guarded request (some (uname, token)) = validating uname token request

-- One statement, on the clock `now`.
unfoldable pub advance : Engine → ℕ → Guarding → Db → Guarding × Db
advance e now (validating uname token request) db =
    after (if_valid uname token request) (is_user_valid uname token db)
advance e now (admitting uname token request) db =
    after (if_admin uname token request) (is_user_admin uname db)
advance e now (banning uname token p) db = as_ban uname token (Threads.advance e now p db)
advance e now (denied status) db = (denied status, db)

-- What a call that has ended answers.
abbrev pub status_of : Guarding → Option Status
status_of (denied status) = some status
status_of (banning uname token (banned uid)) = some ok_status
status_of (banning uname token (Banning.failed x)) = some internal_status
status_of p = none

abbrev pub answer : Guarding × Db → Option Status × Db
answer (p, db) = (status_of p, db)

module _ (e : Engine) (now : ℕ) where
  abbrev next : Guarding × Db → Guarding × Db
  next (p, db) = advance e now p db

  abbrev three_steps : Guarding × Db → Guarding × Db
  three_steps p = next (next (next p))

abbrev as_status : Option (Outcome (Unit {0})) × Db → Option Status × Db
as_status (none, db) = (none, db)
as_status (some (ok done), db) = (some ok_status, db)
as_status (some (thrown x), db) = (some internal_status, db)

abbrev told : Status × GenericResponse × Service → Option Status × Db
told (status, response, s) = (some status, s.db)

-- The service where a statement has left this database.
abbrev at : {A : Type 0} → Service → Outcome A × Db → Outcome A × Service
at s (r, db) = (r, record s { db = db })

module _ (e : Engine) (now : ℕ) (request : BanUserRequest) (response : GenericResponse)
    (s : Service) where
  -- The ban, and what follows it.
  abbrev ban_and_reply : Action Service (Status × GenericResponse)
  ban_and_reply =
      on_db (ban_user e now request.uname request.days)
      >> pure (ok_status, record response { message = "test" })

  abbrev reply_admin : Bool → Action Service (Status × GenericResponse)
  reply_admin admin =
      if admin then ban_and_reply else pure (unauthenticated_status "Invalid permission", response)

  abbrev reply_valid : String → Bool → Action Service (Status × GenericResponse)
  reply_valid uname valid =
      if valid
      then on_db (is_user_admin uname) >>= reply_admin
      else pure (unauthenticated_status "Invalid user", response)

  ban_status_lem :
      (uname token : String) (p : Banning × Db)
      → answer (as_ban uname token p) ≡ as_status (Threads.answer p)
  ban_status_lem uname token (finding name days, db) = refl
  ban_status_lem uname token (checking uid days, db) = refl
  ban_status_lem uname token (extending uid days, db) = refl
  ban_status_lem uname token (inserting uid days, db) = refl
  ban_status_lem uname token (banned uid, db) = refl
  ban_status_lem uname token (Banning.failed x, db) = refl

  after_ban :
      (r : Outcome (Unit {0}) × Db)
      → as_status (Threads.answered r)
        ≡ told (
            caught_with response
              (and_then (λ done. pure (ok_status, record response { message = "test" })) (at s r)))
  after_ban (ok tt, db) = refl
  after_ban (thrown x, db) = refl

  ban_steps :
      (uname token : String) (db : Db)
      → answer (three_steps e now (banning uname token (finding request.uname request.days), db))
        ≡ told (caught_with response (ban_and_reply (record s { db = db })))
  unfolding advance
  ban_steps uname token db =
      ban_status_lem uname token _
      ∙ ap as_status (Threads.three_steps-eq-ban_user e now request.uname request.days db)
      ∙ after_ban (ban_user e now request.uname request.days db)

  after_admin :
      (uname token : String) (r : Outcome Bool × Db)
      → answer (three_steps e now (after (if_admin uname token request) r))
        ≡ told (caught_with response (and_then reply_admin (at s r)))
  unfolding advance
  after_admin uname token (ok true, db) = ban_steps uname token db
  after_admin uname token (ok false, db) = refl
  after_admin uname token (thrown x, db) = refl

  after_valid :
      (uname token : String) (r : Outcome Bool × Db)
      → answer (three_steps e now (next e now (after (if_valid uname token request) r)))
        ≡ told (caught_with response (and_then (reply_valid uname) (at s r)))
  unfolding advance
  after_valid uname token (ok true, db) = after_admin uname token (is_user_admin uname db)
  after_valid uname token (ok false, db) = refl
  after_valid uname token (thrown x, db) = refl

  steps_of :
      (creds : Option (String × String))
      → answer (three_steps e now (next e now (next e now (guarded request creds, s.db))))
        ≡ told (caught_with response (ban_authorised e now request response creds s))
  unfolding advance ban_authorised
  steps_of none = refl
  steps_of (some (uname, token)) = after_valid uname token (is_user_valid uname token s.db)

  -- The five statements of a call, run one after the other with no other call between them, do to
  -- the tables and answer just what `BanUser` does.
  pub five_steps-eq-ban_user_rpc :
      (cmeta : Metadata)
      → answer (
          three_steps e now (
            next e now (
              next e now (
                guarded request (if has_credentials cmeta then get_credentials cmeta else none),
                s.db,
              ))))
        ≡ told (ban_user_rpc e now cmeta request response s)
  unfolding ban_user_rpc
  five_steps-eq-ban_user_rpc cmeta =
      steps_of (if has_credentials cmeta then get_credentials cmeta else none)
