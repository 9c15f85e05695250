-- ===== src/Server/Threads/Backed.antt =====
-- What the threads of the server have established (Server.Threads), and what the state of the server
-- guarantees them.
use wrongthink.Base.{
  String, true, false, some, List, any-Grown, find?-Grown, any, find?, ◌≡◌, ◌&&◌, All, All-map, inr,
  refl,
}
use wrongthink.Proto.{StatusCode, WrongthinkMessage}
use wrongthink.Concurrent.{IsStepped}
use wrongthink.Db.Tables.{User, Community, Channel, BannedUser, BannedIp, Db}
use wrongthink.Db.Relations.{IsUnique}
use wrongthink.Db.Users.{named, matches, has_id}
use wrongthink.Db.Users.Threads.{Creating}
use wrongthink.Db.Users.Threads.Interleaved as Users
use wrongthink.Db.Users.Threads.Interleaved.{IsAdministered}
use wrongthink.Db.Channels.{channel_named, community_named}
use wrongthink.Db.Channels.Threads.{
  Making, inserting_channel, selecting_channel, made_channel, inserting_community,
  selecting_community, made_community, failed,
}
use wrongthink.Db.Bans.Sound.{BanAccounts}
use wrongthink.Db.Bans.Threads.Backed as Bans
use wrongthink.Service.{Service}
use wrongthink.Service.Accounts.Guarding.{Guarding, validating, admitting, banning, denied}
use wrongthink.Service.Soundness.Handlers.{IsServedWith}
use wrongthink.Service.Messaging.Threads.Backed as Messaging
use wrongthink.Service.Messaging.Threads.Backed.{IsLater, IsKept}
use wrongthink.Service.Messaging.Entering.Interleaved as Listeners
use wrongthink.Server.Threads.{
  Serving, checking, creating, making, guarding, entering, sending, idle,
}

-- Every ban is of an account, and each address has one ban at most.
pub record HasLooseBans (users : List User) (bans : List BannedUser) (ips : List BannedIp)
    : Type 0 where
  pub accounts : BanAccounts bans users
  pub addresses : IsUnique (λ (b : BannedIp). b.ip) ips

-- The tables and the live channels are sound, though an account may have several bans; and some
-- account is an admin, unless there is none.
pub record IsWorking (s : Service) : Type 0 where
  pub served : IsServedWith HasLooseBans s
  pub administered : IsAdministered s.db.users.rows

-- The channel, or the community, of this name.
abbrev pub ChannelOf : Db → String → (Channel → Type 0) → Type 0
ChannelOf db name P = (c : Channel) × (find? (channel_named name) db.channels.rows ≡ some c) × P c

abbrev pub CommunityOf : Db → String → (Community → Type 0) → Type 0
CommunityOf db name P =
    (c : Community) × (find? (community_named name) db.communities.rows ≡ some c) × P c

-- After its insert the name of a call stands for a channel, or a community, and in the end for one
-- with the key that the call answers.
abbrev pub IsMade : Db → Making → Type 0
IsMade db (inserting_channel name community admin_id anonymous) = Unit {0}
IsMade db (selecting_channel name) = ChannelOf db name (λ c. Unit {0})
IsMade db (made_channel name id) = ChannelOf db name (λ c. c.channel_id ≡ id)
IsMade db (inserting_community name admin pub_flag garbage) = Unit {0}
IsMade db (selecting_community name garbage) = CommunityOf db name (λ c. Unit {0})
IsMade db (made_community name id) = CommunityOf db name (λ c. c.community_id ≡ id)
IsMade db (failed x) = Unit {0}

abbrev pub HasLogin : Db → String → String → Type 0
HasLogin db uname token = any (matches uname token) db.users.rows ≡ true

abbrev pub IsAdmin : Db → String → Type 0
IsAdmin db uname = any (λ u. named uname u && u.admin) db.users.rows ≡ true

-- Behind its checks, a call that bans carries the name and the token of an account, and the name of
-- an admin.
abbrev pub IsGuarded : Db → Guarding → Type 0
IsGuarded db (validating uname token request) = Unit {0}
IsGuarded db (admitting uname token request) = HasLogin db uname token
IsGuarded db (banning uname token p) =
    HasLogin db uname token × IsAdmin db uname × Bans.IsBacked (λ j. false) db p
IsGuarded db (denied status) = Unit {0}

-- The messages of a stream that were accepted are in what their live channels hold, and in the table.
abbrev pub AreKept : Service → List WrongthinkMessage → Type 0
AreKept s msgs = All (λ (m : WrongthinkMessage). IsKept s m StatusCode.ok) msgs

abbrev pub IsBacked : Service → Serving → Type 0
IsBacked s (creating p) = Users.IsBacked s.db.users.rows p
IsBacked s (making p) = IsMade s.db p
IsBacked s (guarding p) = IsGuarded s.db p
IsBacked s (checking p ps batches handled request) = Unit {0}
IsBacked s (entering p) = Listeners.IsBacked s p
IsBacked s idle = Unit {0}
IsBacked s (sending sent p rest) = AreKept s sent × Messaging.IsBacked s p

module _ (s t : Service) (l : IsLater s t) where
  creating-later :
      (p : Creating) → Users.IsBacked s.db.users.rows p → Users.IsBacked t.db.users.rows p
  creating-later p h = Users.IsBacked-Grown s.db.users.rows t.db.users.rows l.users p h

  making-later : (p : Making) → IsMade s.db p → IsMade t.db p
  making-later (inserting_channel name community admin_id anonymous) h = tt
  making-later (selecting_channel name) (c, found, h) =
      (c, find?-Grown (channel_named name) c _ _ l.channels found, h)
  making-later (made_channel name id) (c, found, h) =
      (c, find?-Grown (channel_named name) c _ _ l.channels found, h)
  making-later (inserting_community name admin pub_flag garbage) h = tt
  making-later (selecting_community name garbage) (c, found, h) =
      (c, find?-Grown (community_named name) c _ _ l.communities found, h)
  making-later (made_community name id) (c, found, h) =
      (c, find?-Grown (community_named name) c _ _ l.communities found, h)
  making-later (failed x) h = tt

  bans-IsGrown : Bans.IsGrown (λ j. false) s.db t.db
  bans-IsGrown = record {
    there = λ uid h. any-Grown (has_id uid) s.db.users.rows t.db.users.rows l.users h;
    aimed = λ uname u found. inr refl;
    still = l.still;
  }

  guarding-later : (p : Guarding) → IsGuarded s.db p → IsGuarded t.db p
  guarding-later (validating uname token request) h = tt
  guarding-later (admitting uname token request) h =
      any-Grown (matches uname token) s.db.users.rows t.db.users.rows l.users h
  guarding-later (banning uname token p) (login, admin, h) = (
    any-Grown (matches uname token) s.db.users.rows t.db.users.rows l.users login,
    any-Grown (λ (u : User). named uname u && u.admin) s.db.users.rows t.db.users.rows l.users
        admin,
    Bans.IsBacked-later (λ j. false) s.db t.db bans-IsGrown p h,
  )
  guarding-later (denied status) h = tt

  pub AreKept-later : (msgs : List WrongthinkMessage) → AreKept s msgs → AreKept t msgs
  AreKept-later msgs h = All-map _ _ (λ m k. Messaging.IsKept-later s t l m StatusCode.ok k) msgs h

  -- What others do takes nothing away.
  pub IsBacked-later : (p : Serving) → IsBacked s p → IsBacked t p
  IsBacked-later (creating p) h = creating-later p h
  IsBacked-later (making p) h = making-later p h
  IsBacked-later (guarding p) h = guarding-later p h
  IsBacked-later (checking p ps batches handled request) h = tt
  IsBacked-later idle h = tt
  IsBacked-later (entering p) h = Listeners.IsBacked-later s t l p h
  IsBacked-later (sending sent p rest) (kept, h) =
      (AreKept-later sent kept, Messaging.IsBacked-later s t l p h)

-- A step that a thread has taken.
abbrev pub IsTaken : Service → Serving × Service → Type 0
IsTaken s r = IsStepped IsWorking IsBacked IsLater s r
