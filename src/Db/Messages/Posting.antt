-- ===== src/Db/Messages/Posting.antt =====
-- What the statements on messages do on a complete schema.
use wrongthink.Base.{ℕ, none, some, ◌≡◌, refl, ◌∙◌, filter}
use wrongthink.Action.{Exception, ok, thrown}
use wrongthink.Db.Engine.{Engine}
use wrongthink.Db.Tables.{Db, appended}
use wrongthink.Db.Cells.{message_cells, inner_join}
use wrongthink.Db.Order.{order_by}
use wrongthink.Db.Sql.{names_resolve}
use wrongthink.Db.Sql.Schema.{TableName, IsReady}
use wrongthink.Db.Sql.Statements.{insert_message, select_messages, execute_ready}
use wrongthink.Db.Messages.{
  Post, message_violation, new_message, insert_message_row, in_channel, get_channel_messages,
}

-- The database with one more message.
abbrev pub with_message : Engine → ℕ → Post → Db → Db
with_message e now p db = record db {
  message = appended e (λ m. m.msg_id) (new_message now p) db.message;
}

abbrev pub refused_message : Engine → Db → Db
refused_message e db = record db {
  message = record db.message { sequence = e.after_failure db.message.sequence };
}

module _ (db : Db) (ready : IsReady db) where
  pub insert_message_row_accepted :
      (e : Engine) (now : ℕ) (p : Post)
      → message_violation e p db ≡ none
      → insert_message_row e now p db ≡ (ok tt, with_message e now p db)
  unfolding insert_message_row names_resolve
  insert_message_row_accepted e now p h = execute_ready insert_message _ db ready refl ∙ rw h

  pub insert_message_row_refused :
      (e : Engine) (now : ℕ) (p : Post) (violation : Exception)
      → message_violation e p db ≡ some violation
      → insert_message_row e now p db ≡ (thrown violation, refused_message e db)
  unfolding insert_message_row names_resolve
  insert_message_row_refused e now p violation h =
      execute_ready insert_message _ db ready refl ∙ rw h

  pub get_channel_messages_ready :
      (id : ℕ)
      → get_channel_messages id db ≡ (
        ok (
            inner_join TableName.message
              (λ m. m.user_id)
              message_cells
              (order_by (λ m. m.msg_id) (filter (in_channel id) db.message.rows))
              db.users.rows),
        db,
      )
  unfolding get_channel_messages names_resolve
  get_channel_messages_ready id = execute_ready select_messages _ db ready refl
