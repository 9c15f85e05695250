-- ===== src/Service/Soundness.antt =====
-- The integrity of what the server stores, which every handler keeps (WrongthinkServiceImpl.cpp).
pub mod Inserts
pub mod Handlers
pub mod Sends
pub mod Runs
use wrongthink.Base.{
  ℕ, String, Bool, true, false, List, [], ◌∷◌, ◌++◌, any, any-append, ◌≡◌, refl, ap, ◌∙◌, sym,
  arith, ◌||◌, All, str_eq, eq_iff, Bool-cases, inl, inr,
}
use wrongthink.Db.Tables.{User, BannedUser, BannedIp, Community, Channel, Message, Table, Db}
use wrongthink.Db.Sql.Schema.{IsReady}
use wrongthink.Db.Keys.{IsKeyed}
use wrongthink.Db.Relations.{IsUnique, Refers}
use wrongthink.Db.Bans.Sound.{HasSoundBans}
use wrongthink.Db.Users.{has_id}
use wrongthink.Db.Channels.{has_channel_id, has_community_id}

-- A law of the two tables of bans, and of the accounts that they refer to.
abbrev pub BanLaw : Type 1
BanLaw = List User → List BannedUser → List BannedIp → Type 0

-- Keys are fresh, unique names are unique, references refer to rows, and bans obey a law.
pub record IsSoundWith (Bans : BanLaw) (db : Db) : Type 0 where
  pub users : IsKeyed (λ (u : User). u.user_id) db.users
  pub communities : IsKeyed (λ (c : Community). c.community_id) db.communities
  pub channels : IsKeyed (λ (c : Channel). c.channel_id) db.channels
  pub messages : IsKeyed (λ (m : Message). m.msg_id) db.message
  pub user_names : IsUnique (λ (u : User). u.uname) db.users.rows
  pub community_names : IsUnique (λ (c : Community). c.name) db.communities.rows
  pub channel_names : IsUnique (λ (c : Channel). c.name) db.channels.rows
  pub community_admins :
      Refers (λ (c : Community). c.admin) has_id db.communities.rows db.users.rows
  pub channel_admins : Refers (λ (c : Channel). c.admin) has_id db.channels.rows db.users.rows
  pub channel_communities :
      Refers (λ (c : Channel). c.community) has_community_id db.channels.rows db.communities.rows
  pub message_authors : Refers (λ (m : Message). m.user_id) has_id db.message.rows db.users.rows
  pub message_channels :
      Refers (λ (m : Message). m.channel) has_channel_id db.message.rows db.channels.rows
  pub bans : Bans db.users.rows db.banned_users.rows db.banned_ips.rows

-- The law is that bans are sound.
abbrev pub IsSound : Db → Type 0
IsSound db = IsSoundWith HasSoundBans db

-- The tables with other bans.
abbrev pub rebanned : Table BannedUser → Table BannedIp → Db → Db
rebanned t i db = record db { banned_users = t; banned_ips = i }

pub rebanned-IsReady :
    (t : Table BannedUser) (i : Table BannedIp) (db : Db)
    → IsReady db
    → t.exists ≡ db.banned_users.exists
    → i.exists ≡ db.banned_ips.exists
    → IsReady (rebanned t i db)
rebanned-IsReady t i db ready there thei = record {
  has_users = ready.has_users;
  has_banned_users = there ∙ ready.has_banned_users;
  has_banned_ips = thei ∙ ready.has_banned_ips;
  has_communities = ready.has_communities;
  has_channels = ready.has_channels;
  has_message = ready.has_message;
  has_control_message = ready.has_control_message;
}

-- They obey another law, if the bans do.
pub rebanned-IsSound :
    {Law Other : BanLaw} (t : Table BannedUser) (i : Table BannedIp) (db : Db)
    → IsSoundWith Law db
    → Other db.users.rows t.rows i.rows
    → IsSoundWith Other (rebanned t i db)
rebanned-IsSound t i db v bans = record {
  users = v.users;
  communities = v.communities;
  channels = v.channels;
  messages = v.messages;
  user_names = v.user_names;
  community_names = v.community_names;
  channel_names = v.channel_names;
  community_admins = v.community_admins;
  channel_admins = v.channel_admins;
  channel_communities = v.channel_communities;
  message_authors = v.message_authors;
  message_channels = v.message_channels;
  bans = bans;
}
