-- ===== src/Service/Cache.antt =====
-- The map of live channels as a cache of the table `channels` (`checkForChannel` and the uses of
-- `channelMap` in WrongthinkServiceImpl.cpp).
use mathlib.Core.List.{append-nil}
use wrongthink.Base.{
  ℕ, String, Bool, true, false, Option, none, some, get_or, List, [], ◌∷◌, ◌++◌, ◌≡◌, refl, ap, sym,
  arith, ◌==◌, ==→eq, any, any-append, ==_refl, find?, find?-any-false, find?-any-true, All,
  All-append, if◌then◌else◌, Bool-cases, inl, inr,
}
use wrongthink.Action.{Outcome, ok}
use wrongthink.Proto.{WrongthinkMessage}
use wrongthink.Channel.{SynchronizedChannel, default_channel, of_name, append_message}
use wrongthink.Db.Engine.{Engine, i_null}
use wrongthink.Db.Tables.{Channel, Db}
use wrongthink.Db.Sql.Schema.{IsReady}
use wrongthink.Db.Channels.{has_channel_id}
use wrongthink.Db.Channels.Listing.{get_channel_row_ready}
use wrongthink.Service.{
  ChannelMap, Service, at_key, is_live, live_channel, update_channel, emplace, check_for_channel,
}

-- The channel is in the table.
abbrev pub channel_exists : ℕ → Db → Bool
channel_exists id db = any (has_channel_id id) db.channels.rows

-- Each live channel is in the table.
abbrev pub IsCoherent : Service → Type 0
IsCoherent s = All (λ (p : ℕ × SynchronizedChannel). channel_exists p.0 s.db ≡ true) s.channel_map

pub live_exists :
    (db : Db) (id : ℕ) (m : ChannelMap)
    → All (λ (p : ℕ × SynchronizedChannel). channel_exists p.0 db ≡ true) m
    → is_live id m ≡ true
    → channel_exists id db ≡ true
unfolding any
live_exists db id [] c h = cc
live_exists db id ((k, ch) ∷ m) c h = elim (Bool-cases (id == k)) [
  | inl same ↦ rw (==→eq id k same) (c.0)
  | inr other ↦ live_exists db id m c.1 (rw other at h)
]

is_live-emplace :
    (id : ℕ) (c : SynchronizedChannel) (m : ChannelMap) → is_live id (emplace id c m) ≡ true
unfolding any
is_live-emplace id c m = rw (any-append (at_key id) m ((id, c) ∷ []), ==_refl id) (ground arith)

module _ (e : Engine) (id : ℕ) (s : Service) (ready : IsReady s.db) where
  pub check_live : is_live id s.channel_map ≡ true → check_for_channel e id s ≡ (ok true, s)
  unfolding check_for_channel
  check_live h = rw h

  pub check_unknown :
      e.missing_row ≡ i_null
      → is_live id s.channel_map ≡ false
      → channel_exists id s.db ≡ false
      → check_for_channel e id s ≡ (ok false, s)
  unfolding check_for_channel
  check_unknown null h k = rw (
    h,
    get_channel_row_ready s.db ready e id,
    find?-any-false (has_channel_id id) s.db.channels.rows k,
    null,
  )

  pub check_stored :
      (c : Channel)
      → is_live id s.channel_map ≡ false
      → find? (has_channel_id id) s.db.channels.rows ≡ some c
      → check_for_channel e id s
        ≡ (ok true, record s { channel_map = emplace id (of_name id c.name) s.channel_map })
  unfolding check_for_channel
  check_stored c h k = rw (h, get_channel_row_ready s.db ready e id, k)

pub live_channel-update :
    (id j : ℕ) (f : SynchronizedChannel → SynchronizedChannel) (m : ChannelMap)
    → live_channel j (update_channel id f m) ≡ (
        if id == j then some (f (get_or (live_channel id m) default_channel)) else live_channel j m)
unfolding live_channel update_channel
live_channel-update id j f [] = ground arith
live_channel-update id j f ((k, c) ∷ m) = ground (arith, live_channel-update id j f m)

abbrev pub vector_of : Option SynchronizedChannel → List WrongthinkMessage
vector_of none = []
vector_of (some c) = c.msg_vector

-- The messages that the live channel holds; none if the channel is not live.
pub history : ℕ → ChannelMap → List WrongthinkMessage
history id m = vector_of (live_channel id m)

pub live_channel-append :
    (j : ℕ) (m n : ChannelMap)
    → live_channel j (m ++ n) ≡ (if is_live j m then live_channel j m else live_channel j n)
unfolding live_channel any
live_channel-append j [] n = refl
live_channel-append j ((k, c) ∷ m) n = ground (arith, live_channel-append j m n)

pub cold_channel : (j : ℕ) (m : ChannelMap) → is_live j m ≡ false → live_channel j m ≡ none
unfolding live_channel any
cold_channel j [] h = refl
cold_channel j ((k, c) ∷ m) h = ground (arith, cold_channel j m)

-- A channel that becomes live holds no message, and the others keep theirs.
pub history-emplace :
    (id j : ℕ) (name : String) (m : ChannelMap)
    → history j (emplace id (of_name id name) m) ≡ history j m
unfolding history live_channel
history-emplace id j name m =
    rw (live_channel-append j m ((id, of_name id name) ∷ [])) (ground (arith, cold_channel j m))

vector_or : (o : Option SynchronizedChannel) → (get_or o default_channel).msg_vector ≡ vector_of o
vector_or none = refl
vector_or (some c) = refl

-- `appendMessage` on an entry puts the message behind those of that channel, and leaves the others.
pub history-append_message :
    (id j : ℕ) (msg : WrongthinkMessage) (m : ChannelMap)
    → history j (update_channel id (append_message msg) m)
      ≡ history j m ++ (if id == j then msg ∷ [] else [])
unfolding history append_message
history-append_message id j msg m =
    rw (live_channel-update id j (append_message msg) m) (elim (Bool-cases (id == j)) [
      | inl same ↦
          rw (same, ==→eq id j same) (ap (λ v. v ++ msg ∷ []) (vector_or (live_channel j m)))
      | inr other ↦ rw other (sym (append-nil _))
    ])

-- Looking up an entry leaves what the channels hold.
pub history-update_same :
    (id j : ℕ) (m : ChannelMap) → history j (update_channel id (λ c. c) m) ≡ history j m
unfolding history
history-update_same id j m = rw (live_channel-update id j (λ c. c) m) (elim (Bool-cases (id == j)) [
  | inl same ↦ rw (same, ==→eq id j same) (vector_or (live_channel j m))
  | inr other ↦ rw other refl
])

pub update_channel-IsCoherent :
    (id : ℕ) (f : SynchronizedChannel → SynchronizedChannel) (db : Db) (m : ChannelMap)
    → channel_exists id db ≡ true
    → All (λ (p : ℕ × SynchronizedChannel). channel_exists p.0 db ≡ true) m
    → All (λ (p : ℕ × SynchronizedChannel). channel_exists p.0 db ≡ true) (update_channel id f m)
unfolding update_channel
update_channel-IsCoherent id f db [] h c = (h, tt)
update_channel-IsCoherent id f db ((k, ch) ∷ m) h c = elim (Bool-cases (id == k)) [
  | inl same ↦ rw (same, update_channel) c
  | inr other ↦ rw (other, update_channel) (c.0, update_channel-IsCoherent id f db m h c.1)
]

-- The map of live channels after `checkForChannel`.
pub checked_map : Engine → ℕ → Service → ChannelMap
checked_map e id s = (check_for_channel e id s).1.channel_map

-- A complete schema, and a map of channels that are in the table.
pub record IsServing (s : Service) : Type 0 where
  pub ready : IsReady s.db
  pub coherent : IsCoherent s

-- The check answers whether the channel is in the table and changes at most the map, in which the
-- channel is live exactly on true; the map stays coherent, and no live channel loses or gains a
-- message.
pub record IsChecked (e : Engine) (id : ℕ) (s : Service) : Type 0 where
  pub answer :
      check_for_channel e id s
      ≡ (ok (channel_exists id s.db), record s { channel_map = checked_map e id s })
  pub coherent :
      All (λ (p : ℕ × SynchronizedChannel). channel_exists p.0 s.db ≡ true) (checked_map e id s)
  pub live : is_live id (checked_map e id s) ≡ channel_exists id s.db
  pub same : (j : ℕ) → history j (checked_map e id s) ≡ history j s.channel_map

IsChecked-from :
    (e : Engine) (id : ℕ) (s : Service) (b : Bool) (m : ChannelMap)
    → channel_exists id s.db ≡ b
    → check_for_channel e id s ≡ (ok b, record s { channel_map = m })
    → All (λ (p : ℕ × SynchronizedChannel). channel_exists p.0 s.db ≡ true) m
    → is_live id m ≡ b
    → ((j : ℕ) → history j m ≡ history j s.channel_map)
    → checked_map e id s ≡ m
    → IsChecked e id s
IsChecked-from e id s b m there q c live same after = record {
  answer = rw (after, there) q;
  coherent = rw after c;
  live = rw (after, there) live;
  same = λ j. rw after (same j);
}

IsChecked-of :
    (e : Engine) (id : ℕ) (s : Service) (b : Bool) (m : ChannelMap)
    → channel_exists id s.db ≡ b
    → check_for_channel e id s ≡ (ok b, record s { channel_map = m })
    → All (λ (p : ℕ × SynchronizedChannel). channel_exists p.0 s.db ≡ true) m
    → is_live id m ≡ b
    → ((j : ℕ) → history j m ≡ history j s.channel_map)
    → IsChecked e id s
unfolding checked_map
IsChecked-of e id s b m there q c live same =
    let after : checked_map e id s ≡ m = ap (λ (p : Outcome Bool × Service). p.1.channel_map) q in
    IsChecked-from e id s b m there q c live same after

-- On a complete schema, with a coherent map and where a row that was not found is null,
-- `checkForChannel` answers whether the channel is in the table. It changes at most the map, in
-- which the channel is then live exactly if it is in the table; the map stays coherent, and what
-- the live channels hold stays the same.
pub check_for_channel_exact :
    (e : Engine) (id : ℕ) (s : Service) → e.missing_row ≡ i_null → IsServing s → IsChecked e id s
check_for_channel_exact e id s null v = elim (Bool-cases (is_live id s.channel_map)) [
  | inl live ↦
      IsChecked-of e id s true s.channel_map (live_exists s.db id s.channel_map v.coherent live)
        (check_live e id s v.ready live) v.coherent live (λ j. refl)
  | inr cold ↦ elim (Bool-cases (channel_exists id s.db)) [
    | inr absent ↦
        IsChecked-of e id s false s.channel_map absent
          (check_unknown e id s v.ready null cold absent) v.coherent cold (λ j. refl)
    | inl there ↦
        let (ch, found, hit) = find?-any-true (has_channel_id id) s.db.channels.rows there in
        IsChecked-of e id s true (emplace id (of_name id ch.name) s.channel_map) there
          (check_stored e id s v.ready ch cold found)
          (All-append _ s.channel_map _ v.coherent (there, tt)) (is_live-emplace id _ s.channel_map)
          (λ j. history-emplace id j ch.name s.channel_map)
  ]
]

-- For a channel that is not in the table nothing changes.
pub check_absent :
    (e : Engine) (id : ℕ) (s : Service)
    → e.missing_row ≡ i_null
    → IsServing s
    → channel_exists id s.db ≡ false
    → check_for_channel e id s ≡ (ok false, s)
check_absent e id s null v absent = elim (Bool-cases (is_live id s.channel_map)) [
  | inl live ↦ cc (live_exists s.db id s.channel_map v.coherent live)
  | inr cold ↦ check_unknown e id s v.ready null cold absent
]
