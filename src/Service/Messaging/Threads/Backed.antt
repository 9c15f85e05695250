-- ===== src/Service/Messaging/Threads/Backed.antt =====
-- What a call of `SendWrongthinkMessageWeb` (WrongthinkServiceImpl.cpp) has established, and why the
-- steps of other calls do not undo it.
use mathlib.Core.List.{append_assoc}
use mathlib.Core.Path.{subst}
use wrongthink.Db.Bans.Threads.Backed.{has_ban}
use wrongthink.Base.{Grown, not_grown, any-Grown, ℕ, true, List, ◌∷◌, ◌++◌, map, ◌≡◌, ap, sym, ◌∙◌}
use wrongthink.Proto.{StatusCode, WrongthinkMessage}
use wrongthink.Db.Channels.{has_channel_id}
use wrongthink.Db.Messages.{Post}
use wrongthink.Service.{Service}
use wrongthink.Service.Cache.{channel_exists, history}
use wrongthink.Service.Messaging.{post}
use wrongthink.Service.Messaging.Posted.{post_of}
use wrongthink.Service.Messaging.Threads.{
  Sending, counting, fetching, emplacing, broadcasting, inserting, answered,
}

-- The list has the entry somewhere.
abbrev pub Holds : {A : Type 0} → A → List A → Type 0
Holds {A} x xs = (before : List A) × (behind : List A) × (xs ≡ before ++ x ∷ behind)

Holds-append : {A : Type 0} (x : A) (xs ys : List A) → Holds x xs → Holds x (xs ++ ys)
Holds-append x xs ys (before, behind, same) =
    (before, behind ++ ys, ap (λ l. l ++ ys) same ∙ append_assoc before (x ∷ behind) ys)

abbrev pub posts : Service → List Post
posts s = map post_of s.db.message.rows

-- The listeners of the channel were handed the message.
abbrev pub WasHanded : Service → WrongthinkMessage → Type 0
WasHanded s msg = Holds msg (history msg.channelid s.channel_map)

abbrev pub IsKept : Service → WrongthinkMessage → StatusCode → Type 0
IsKept s msg StatusCode.ok = WasHanded s msg × Holds (post msg) (posts s)
IsKept s msg _ = Unit {0}

-- What a call has established: it hands a message over only where the channel is in the table, stores
-- it only behind that, and answers OK only behind both.
abbrev pub IsBacked : Service → Sending → Type 0
IsBacked s (counting msg) = Unit {0}
IsBacked s (fetching msg) = Unit {0}
IsBacked s (emplacing msg name) = channel_exists msg.channelid s.db ≡ true
IsBacked s (broadcasting msg) = channel_exists msg.channelid s.db ≡ true
IsBacked s (inserting msg) = WasHanded s msg
IsBacked s (answered msg status) = IsKept s msg status.code

-- What the steps of any call leave: rows are only added to the tables of accounts, places and
-- messages, no account loses its last ban, and what the live channels hold only grows.
pub record IsLater (s t : Service) : Type 0 where
  pub users : Grown s.db.users.rows t.db.users.rows
  pub communities : Grown s.db.communities.rows t.db.communities.rows
  pub channels : Grown s.db.channels.rows t.db.channels.rows
  pub still : (uid : ℕ) → has_ban uid s.db ≡ true → has_ban uid t.db ≡ true
  pub stored : Grown (posts s) (posts t)
  pub handed : (j : ℕ) → Grown (history j s.channel_map) (history j t.channel_map)

pub same-IsLater : (s : Service) → IsLater s s
same-IsLater s = record {
  users = not_grown _;
  communities = not_grown _;
  channels = not_grown _;
  still = λ uid h. h;
  stored = not_grown _;
  handed = λ j. not_grown _;
}

module _ (s t : Service) (l : IsLater s t) where
  pub still_there : (id : ℕ) → channel_exists id s.db ≡ true → channel_exists id t.db ≡ true
  still_there id h =
      any-Grown (has_channel_id id) s.db.channels.rows t.db.channels.rows l.channels h

  WasHanded-later : (msg : WrongthinkMessage) → WasHanded s msg → WasHanded t msg
  WasHanded-later msg h =
      subst (Holds msg) (sym (l.handed msg.channelid).1)
        (Holds-append msg (history msg.channelid s.channel_map) (l.handed msg.channelid).0 h)

  pub IsKept-later : (msg : WrongthinkMessage) (c : StatusCode) → IsKept s msg c → IsKept t msg c
  IsKept-later msg StatusCode.ok (handed, held) = (
    WasHanded-later msg handed,
    subst (Holds (post msg)) (sym l.stored.1) (Holds-append (post msg) (posts s) l.stored.0 held),
  )
  IsKept-later msg StatusCode.invalid_argument h = tt
  IsKept-later msg StatusCode.unauthenticated h = tt
  IsKept-later msg StatusCode.internal h = tt

  pub IsBacked-later : (p : Sending) → IsBacked s p → IsBacked t p
  IsBacked-later (counting msg) h = tt
  IsBacked-later (fetching msg) h = tt
  IsBacked-later (emplacing msg name) h = still_there msg.channelid h
  IsBacked-later (broadcasting msg) h = still_there msg.channelid h
  IsBacked-later (inserting msg) h = WasHanded-later msg h
  IsBacked-later (answered msg status) h = IsKept-later msg status.code h
