-- ===== src/Interceptor/Banned.antt =====
-- Whom the interceptor keeps out (Interceptors/Interceptor.cpp).
use wrongthink.Base.{
  ℕ, String, Bool, true, false, some, List, [], ◌∷◌, any, ◌≡◌, refl, arith, ◌&&◌, inl, inr,
}
use wrongthink.Action.{Outcome, ok, thrown, Outcome-cases}
use wrongthink.Db.Engine.{Engine}
use wrongthink.Db.Tables.{User, BannedUser, Db}
use wrongthink.Db.Sql.Schema.{IsReady}
use wrongthink.Db.Bans.{bans_name}
use wrongthink.Db.Bans.Ips.{ip_answer, is_ip_banned-IsIpChecked}
use wrongthink.Db.Bans.Users.{is_user_banned_free}
use wrongthink.Db.Users.{named, has_id}
use wrongthink.Interceptor.{Request, HookPoints, Call, find_field, intercept}

-- The hook points of the first and of the second batch of a call.
abbrev pub metadata_received : HookPoints
metadata_received = record { post_recv_initial_metadata = true; post_recv_message = false }

abbrev pub message_received : HookPoints
message_received = record { post_recv_initial_metadata = false; post_recv_message = true }

-- A call that has just come in.
abbrev pub incoming : Db → Call
incoming db = record { db = db; cancelled = false; proceeded = false }

-- How the check ends, and whether it cancels the call.
abbrev pub ended : Outcome Bool → Outcome (Unit {0})
ended (ok banned) = ok tt
ended (thrown x) = thrown x

abbrev pub is_cancelled : Outcome Bool → Bool
is_cancelled (ok banned) = banned
is_cancelled (thrown x) = false

abbrev pub has_returned : Outcome Bool → Bool
has_returned (ok banned) = true
has_returned (thrown x) = false

-- On a complete schema: when the metadata has come, the interceptor looks for the first ban of the
-- peer's address in the table. It cancels the call exactly if there is one, and the expiry that SOCI
-- reads from its `int` column has not passed; and it lets the call proceed in either case. Where
-- SOCI reads no expiry, it throws, and neither cancels the call nor lets it proceed.
pub intercept-metadata :
    (e : Engine) (now later : ℕ) (peer : String) (request : Request) (db : Db)
    → IsReady db
    → ((intercept e now later peer request metadata_received (incoming db)).0
        ≡ ended (ip_answer e now peer db))
      × ((intercept e now later peer request metadata_received (incoming db)).1.cancelled
          ≡ is_cancelled (ip_answer e now peer db))
      × ((intercept e now later peer request metadata_received (incoming db)).1.proceeded
          ≡ has_returned (ip_answer e now peer db))
unfolding intercept
intercept-metadata e now later peer request db ready =
    let checks = is_ip_banned-IsIpChecked e now peer db ready in
    elim (Outcome-cases (ip_answer e now peer db)) [
      | inr (x, throws) ↦ rw (checks.answer, throws) (refl, refl, refl)
      | inl (true, returns) ↦ rw (checks.answer, returns) (refl, refl, refl)
      | inl (false, returns) ↦ rw (checks.answer, returns) (refl, refl, refl)
    ]

nobody-bans_name :
    (uname : String) (uid : ℕ) (us : List User)
    → any (named uname) us ≡ false
    → any (λ u. has_id uid u && named uname u) us ≡ false
unfolding any
nobody-bans_name uname uid [] h = refl
nobody-bans_name uname uid (u ∷ us) h = ground (arith, nobody-bans_name uname uid us)

no_ban-bans_name :
    (uname : String) (db : Db) (rows : List BannedUser)
    → any (named uname) db.users.rows ≡ false
    → any (bans_name uname db) rows ≡ false
unfolding any
no_ban-bans_name uname db [] h = refl
no_ban-bans_name uname db (b ∷ bs) h =
    rw (nobody-bans_name uname b.user_id db.users.rows h) (no_ban-bans_name uname db bs h)

-- On a complete schema: when the message has come, the name that is checked is the default of the
-- field `uname`, which is empty, and not the name in the message. So a call proceeds and is not
-- cancelled, and nothing changes, whichever accounts are banned and whatever the message holds, as
-- long as no account has the empty name.
pub intercept-message :
    (e : Engine) (now later : ℕ) (peer : String) (request : Request) (db : Db)
    → IsReady db
    → find_field "uname" request.defaults ≡ some ""
    → any (named "") db.users.rows ≡ false
    → intercept e now later peer request message_received (incoming db)
      ≡ (ok tt, record (incoming db) { proceeded = true })
unfolding intercept
intercept-message e now later peer request db ready field nobody =
    rw
      (
        field,
        is_user_banned_free e now later "" peer db ready
            (no_ban-bans_name "" db db.banned_users.rows nobody),
      )
      refl
