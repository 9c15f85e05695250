-- ===== src/Service/Messaging/Chat.antt =====
-- What sending promises, said of an abstract chat (`SendWrongthinkMessageImpl` and
-- `SendWrongthinkMessageWeb`, WrongthinkServiceImpl.cpp): who may write where, what is stored, and what
-- the listeners of a channel are handed. Keys and dates of rows, sequences, and which channels the map
-- of live channels happens to hold, are forgotten.
use mathlib.Core.List.{map-append}
use std.Path.{fun_ext}
use wrongthink.Base.{
  ℕ, suc, Bool, true, false, none, some, List, [], ◌∷◌, ◌++◌, map, any, ◌&&◌, not, ◌≡◌, refl, ap,
  ◌∙◌, arith, ◌==◌, length, if◌then◌else◌, Bool-cases, Option-cases, inl, inr,
}
use wrongthink.Action.{Exception}
use wrongthink.Proto.{WrongthinkMessage, Status, ok_status, invalid_status, internal_status}
use wrongthink.Db.Engine.{Engine, i_null}
use wrongthink.Db.Users.{has_id}
use wrongthink.Db.Messages.{Post, message_violation}
use wrongthink.Service.{Service, caught}
use wrongthink.Service.Cache.{channel_exists, IsServing, check_absent, history}
use wrongthink.Service.Messaging.{post, send_wrongthink_message, send_round}
use wrongthink.Service.Messaging.Sending.{
  send_one_unknown, posted, heard_only, send_one-posted, send_one_heard, posted-IsServing,
  history-heard,
}
use wrongthink.Service.Messaging.Streams.{reader_at, send_list, send_loop-eq-send_list}
use wrongthink.Service.Messaging.Posted.{post_of}

pub record Chat : Type 0 where
  pub is_author : ℕ → Bool
  pub is_channel : ℕ → Bool
  pub posts : List Post
  pub handed : ℕ → List WrongthinkMessage

abbrev pub view : Service → Chat
view s = record {
  is_author = λ id. any (has_id id) s.db.users.rows;
  is_channel = λ id. channel_exists id s.db;
  posts = map post_of s.db.message.rows;
  handed = λ id. history id s.channel_map;
}

-- The message goes to the listeners of its channel.
abbrev pub with_handed : WrongthinkMessage → Chat → Chat
with_handed msg c = record c {
  handed = λ id. c.handed id ++ (if msg.channelid == id then msg ∷ [] else []);
}

abbrev pub with_post : WrongthinkMessage → Chat → Chat
with_post msg c = record c { posts = c.posts ++ post msg ∷ [] }

-- Messages are delivered in order, up to one that cannot be.
unfoldable pub deliver : Bool → List WrongthinkMessage → Chat → Status × Chat
deliver strict [] c = (ok_status, c)
deliver strict (msg ∷ msgs) c =
    let rest = deliver strict msgs (with_post msg (with_handed msg c)) in
    if not (c.is_channel msg.channelid)
    then (invalid_status, c)
    else if strict && not (c.is_author msg.userid)
    then (internal_status, with_handed msg c)
    else rest

-- The status and the abstract chat of a service.
abbrev pub seen : Status × Service → Status × Chat
seen (status, s) = (status, view s)

module _ (e : Engine) (msg : WrongthinkMessage) (s : Service)
    (there : channel_exists msg.channelid s.db ≡ true) where
  written :
      message_violation e (post msg) s.db ≡ none
      → (e.enforces_references && not (any (has_id msg.userid) s.db.users.rows)) ≡ false
  unfolding message_violation
  written free = ground (arith, there, free)

  unwritten :
      (x : Exception)
      → message_violation e (post msg) s.db ≡ some x
      → (e.enforces_references && not (any (has_id msg.userid) s.db.users.rows)) ≡ true
  unfolding message_violation
  unwritten x refused = ground (arith, there, refused)

module _ (e : Engine) (clock : ℕ → ℕ) (null : e.missing_row ≡ i_null) where
  view-heard_only :
      (msg : WrongthinkMessage) (s : Service)
      → IsServing s
      → view (heard_only e msg s) ≡ with_handed msg (view s)
  view-heard_only msg s v = rw (fun_ext (history-heard e 0 msg s null v)) refl

  view-posted :
      (n : ℕ) (msg : WrongthinkMessage) (s : Service)
      → IsServing s
      → view (posted e n msg s) ≡ with_post msg (with_handed msg (view s))
  view-posted n msg s v =
      rw (fun_ext (history-heard e n msg s null v), map-append post_of s.db.message.rows _) refl

  send_list-deliver :
      (n : ℕ) (msgs : List WrongthinkMessage) (s : Service)
      → IsServing s
      → seen (caught (send_list e clock n msgs s)) ≡ deliver e.enforces_references msgs (view s)
  unfolding send_list deliver send_round
  send_list-deliver n [] s v = refl
  send_list-deliver n (msg ∷ msgs) s v = elim (Bool-cases (channel_exists msg.channelid s.db)) [
    | inr absent ↦
        rw
          (
            absent,
            send_one_unknown e (clock n) msg s s (check_absent e msg.channelid s null v absent),
          )
          refl
    | inl there ↦ elim (Option-cases (message_violation e (post msg) s.db)) [
      | inl free ↦
          rw
            (
              there,
              written e msg s there free,
              send_one-posted e (clock n) msg s null v (there, free),
            )
            (send_list-deliver (suc n) msgs (posted e (clock n) msg s)
                (posted-IsServing e (clock n) msg s null v there)
              ∙ ap (deliver e.enforces_references msgs) (view-posted (clock n) msg s v))
      | inr (x, refused) ↦
          rw
            (
              there,
              unwritten e msg s there x refused,
              send_one_heard e (clock n) msg s null v x there refused,
            )
            (ap (λ c. (internal_status, c)) (view-heard_only msg s v))
    ]
  ]

  -- The handler of a stream refines the abstract chat: on a complete schema, with a coherent map and
  -- where a row that was not found is null, for any messages, its status is the one that `deliver`
  -- gives, and what it stores and hands to the listeners is what `deliver` does. A message to an
  -- unknown channel ends the stream with INVALID_ARGUMENT; one of an unknown author ends it with
  -- INTERNAL where references are enforced, handed to its channel but not stored; the messages before
  -- it stay, and those behind it are not read.
  pub send_stream-deliver :
      (msgs : List WrongthinkMessage) (s : Service)
      → IsServing s
      → seen (send_wrongthink_message e clock (reader_at msgs 0) s)
        ≡ deliver e.enforces_references msgs (view s)
  unfolding send_wrongthink_message
  send_stream-deliver msgs s v =
      rw (send_loop-eq-send_list e clock (suc (length msgs)) 0 [] msgs refl (omega arith))
        (send_list-deliver 0 msgs s v)
