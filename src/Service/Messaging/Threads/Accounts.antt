-- ===== src/Service/Messaging/Threads/Accounts.antt =====
-- A call of `SendWrongthinkMessageWeb` (WrongthinkServiceImpl.cpp) changes no account.
use wrongthink.Base.{ℕ, ◌≡◌, refl, ap, ◌∙◌, Option-cases, inl, inr}
use wrongthink.Action.{Outcome, ok, thrown}
use wrongthink.Proto.{WrongthinkMessage}
use wrongthink.Db.Engine.{Engine}
use wrongthink.Db.Tables.{Db}
use wrongthink.Db.Sql.Schema.{IsReady}
use wrongthink.Db.Channels.{NameRow, get_channel_row}
use wrongthink.Db.Channels.Listing.{get_channel_row_ready}
use wrongthink.Db.Messages.{Post, message_violation, insert_message_row}
use wrongthink.Db.Messages.Posting.{insert_message_row_accepted, insert_message_row_refused}
use wrongthink.Service.{Service, on_db}
use wrongthink.Service.Messaging.{post, broadcast}
use wrongthink.Service.Messaging.Threads.{
  Sending, counting, fetching, emplacing, broadcasting, inserting, answered, fetched, stored,
  advance,
}

fetched_users :
    (msg : WrongthinkMessage) (r : Outcome NameRow × Service)
    → (fetched msg r).1.db.users.rows ≡ r.1.db.users.rows
fetched_users msg (ok row, s) = refl
fetched_users msg (thrown x, s) = refl

stored_users :
    (msg : WrongthinkMessage) (r : Outcome (Unit {0}) × Service)
    → (stored msg r).1.db.users.rows ≡ r.1.db.users.rows
stored_users msg (ok done, s) = refl
stored_users msg (thrown x, s) = refl

insert_users :
    (e : Engine) (now : ℕ) (s : Service)
    → IsReady s.db
    → (p : Post) → (insert_message_row e now p s.db).1.users.rows ≡ s.db.users.rows
insert_users e now s ready p = elim (Option-cases (message_violation e p s.db)) [
  | inl free ↦ rw (insert_message_row_accepted s.db ready e now p free) refl
  | inr (x, refused) ↦ rw (insert_message_row_refused s.db ready e now p x refused) refl
]

pub advance-users :
    (e : Engine) (now : ℕ) (s : Service)
    → IsReady s.db
    → (p : Sending) → (advance e now p s).1.db.users.rows ≡ s.db.users.rows
unfolding advance broadcast
advance-users e now s ready (counting msg) = refl
advance-users e now s ready (fetching msg) =
    fetched_users msg (on_db (get_channel_row e msg.channelid) s)
    ∙ ap (λ (r : Outcome NameRow × Db). r.1.users.rows)
        (get_channel_row_ready s.db ready e msg.channelid)
advance-users e now s ready (emplacing msg name) = refl
advance-users e now s ready (broadcasting msg) = refl
advance-users e now s ready (inserting msg) =
    stored_users msg (on_db (insert_message_row e now (post msg)) s)
    ∙ insert_users e now s ready (post msg)
advance-users e now s ready (answered msg status) = refl
