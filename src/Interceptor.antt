-- ===== src/Interceptor.antt =====
-- Interceptors/Interceptor.cpp: what the server does with a call before its handler runs.
pub mod Banned
pub mod Framed
use wrongthink.Base.{
  ℕ, String, Bool, true, false, Option, none, some, List, [], ◌∷◌, str_eq, if◌then◌else◌,
}
use wrongthink.Action.{Action, pure, ◌>>=◌, ◌>>◌}
use wrongthink.Db.Engine.{Engine}
use wrongthink.Db.Tables.{Db}
use wrongthink.Db.Bans.{is_ip_banned, is_user_banned}

-- The fields of a request, by name, each with the default value of its type; the values that the
-- client sent are `values`, which the source only logs.
pub record Request : Type 0 where
  pub defaults : List (String × String)
  pub values : List (String × String)

-- The hook points that `QueryInterceptionHookPoint` answers for: those of the source that do
-- anything. The other five do nothing.
pub record HookPoints : Type 0 where
  pub post_recv_initial_metadata : Bool
  pub post_recv_message : Bool

-- The call as the interceptor sees and changes it.
pub record Call : Type 0 where
  pub db : Db
  pub cancelled : Bool
  pub proceeded : Bool

abbrev pub on_call : {A : Type 0} → Action Db A → Action Call A
on_call m c = let (r, db') = m c.db in (r, record c { db = db' })

-- TryCancel
abbrev pub try_cancel : Action Call (Unit {0})
try_cancel c = pure tt (record c { cancelled = true })

abbrev pub proceed : Action Call (Unit {0})
proceed c = pure tt (record c { proceeded = true })

abbrev pub cancel_if : Bool → Action Call (Unit {0})
cancel_if b = if b then try_cancel else pure tt

-- descriptor->FindFieldByName
unfoldable pub find_field : String → List (String × String) → Option String
find_field name [] = none
find_field name ((n, default) ∷ rest) = if str_eq name n then some default else find_field name rest

check_user : Engine → ℕ → ℕ → String → Option String → Action Call (Unit {0})
check_user e now later peer none = pure tt
check_user e now later peer (some uname) = do
  banned ← on_call (is_user_banned e now later uname peer)
  cancel_if banned

-- `now` and `later` are the clocks that the checks read.
pub intercept : Engine → ℕ → ℕ → String → Request → HookPoints → Action Call (Unit {0})
unfolding check_user
intercept e now later peer request hooks = do
  if hooks.post_recv_initial_metadata
      then (do banned ← on_call (is_ip_banned e now peer); cancel_if banned)
      else pure tt
  if hooks.post_recv_message
      then check_user e now later peer (find_field "uname" request.defaults)
      else pure tt
  proceed
