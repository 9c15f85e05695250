-- ===== src/Interceptor/Framed.antt =====
-- What the interceptor leaves alone (Interceptors/Interceptor.cpp).
use wrongthink.Base.{ℕ, String, Bool, true, false, Option, none, some, if◌then◌else◌}
use wrongthink.Action.{Action, pure, ◌>>=◌}
use wrongthink.Db.Engine.{Engine}
use wrongthink.Db.Tables.{Db}
use wrongthink.Db.Bans.{is_ip_banned, is_user_banned}
use wrongthink.Db.Bans.Framing.{same-IsFramed, Frames, FramesOn, bind-FramesOn, if-FramesOn}
use wrongthink.Db.Bans.Frames.{is_ip_banned-Frames, is_user_banned-Frames}
use wrongthink.Interceptor.{
  Request, HookPoints, Call, on_call, cancel_if, proceed, find_field, check_user, intercept,
}

abbrev pub db_of : Call → Db
db_of c = c.db

on_call-FramesOn : {A : Type 0} (m : Action Db A) → Frames m → FramesOn db_of (on_call m)
on_call-FramesOn m h c = h c.db

cancel_if-FramesOn : (b : Bool) → FramesOn db_of (cancel_if b)
cancel_if-FramesOn true c = same-IsFramed c.db
cancel_if-FramesOn false c = same-IsFramed c.db

module _ (e : Engine) (now later : ℕ) (peer : String) where
  check_user-FramesOn : (uname : Option String) → FramesOn db_of (check_user e now later peer uname)
  unfolding check_user
  check_user-FramesOn none c = same-IsFramed c.db
  check_user-FramesOn (some uname) c =
      bind-FramesOn db_of (on_call (is_user_banned e now later uname peer)) cancel_if
        (on_call-FramesOn (is_user_banned e now later uname peer)
          (is_user_banned-Frames e now later uname peer))
        cancel_if-FramesOn c

  -- The two hook points, and what comes after each.
  abbrev at_metadata : HookPoints → Action Call (Unit {0})
  at_metadata hooks =
      if hooks.post_recv_initial_metadata
      then on_call (is_ip_banned e now peer) >>= cancel_if
      else pure tt

  abbrev at_message : Request → HookPoints → Action Call (Unit {0})
  at_message request hooks =
      if hooks.post_recv_message
      then check_user e now later peer (find_field "uname" request.defaults)
      else pure tt

  at_metadata-FramesOn : (hooks : HookPoints) → FramesOn db_of (at_metadata hooks)
  at_metadata-FramesOn hooks =
      if-FramesOn db_of hooks.post_recv_initial_metadata
        (on_call (is_ip_banned e now peer) >>= cancel_if) (pure tt)
        (bind-FramesOn db_of (on_call (is_ip_banned e now peer)) cancel_if
          (on_call-FramesOn (is_ip_banned e now peer) (is_ip_banned-Frames e now peer))
          cancel_if-FramesOn)
        (λ c. same-IsFramed c.db)

  at_message-FramesOn :
      (request : Request) (hooks : HookPoints) → FramesOn db_of (at_message request hooks)
  at_message-FramesOn request hooks =
      if-FramesOn db_of hooks.post_recv_message
        (check_user e now later peer (find_field "uname" request.defaults)) (pure tt)
        (check_user-FramesOn (find_field "uname" request.defaults)) (λ c. same-IsFramed c.db)

  pub intercept-FramesOn :
      (request : Request) (hooks : HookPoints)
      → FramesOn db_of (intercept e now later peer request hooks)
  unfolding intercept
  intercept-FramesOn request hooks =
      bind-FramesOn db_of (at_metadata hooks) (λ u. at_message request hooks >>= λ w. proceed)
        (at_metadata-FramesOn hooks)
        (λ u.
          bind-FramesOn db_of (at_message request hooks) (λ w. proceed)
            (at_message-FramesOn request hooks) (λ w. λ c. same-IsFramed c.db))
