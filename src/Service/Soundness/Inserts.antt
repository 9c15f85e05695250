-- ===== src/Service/Soundness/Inserts.antt =====
-- Each insert keeps the tables sound, whether it is accepted or refused.
use wrongthink.Base.{ℕ, String, Bool, true, false, none, some, List, ◌++◌, ◌≡◌, refl, arith}
use wrongthink.Action.{Exception}
use wrongthink.Db.Engine.{Engine, IssuesFreshIds}
use wrongthink.Db.Tables.{User, BannedUser, BannedIp, Community, Channel, Message, Db}
use wrongthink.Db.Keys.{appended-IsKeyed, insert-IsKeyed}
use wrongthink.Db.Sql.Schema.{IsReady}
use wrongthink.Db.Users.{has_id, user_violation}
use wrongthink.Db.Users.Accounts.{new_user, with_user, refused_user, unnamed_before}
use wrongthink.Db.Channels.{
  has_channel_id, has_community_id, channel_violation, community_violation,
}
use wrongthink.Db.Channels.Creation.{
  new_channel, new_community, with_channel, with_community, refused_channel, refused_community,
  channel_unnamed, channel_admin_known, channel_community_known, community_unnamed,
  community_admin_known,
}
use wrongthink.Db.Messages.{Post, message_violation, new_message}
use wrongthink.Db.Messages.Posting.{with_message, refused_message}
use wrongthink.Db.Relations.{IsUnique-snoc, Refers-grow, Refers-snoc}
use wrongthink.Service.Soundness.{BanLaw, IsSoundWith}

module _ {Bans : BanLaw} (e : Engine) (fresh : IssuesFreshIds e) (db : Db)
    (v : IsSoundWith Bans db) where
  pub with_user-IsSound :
      ((us more : List User) (bans : List BannedUser) (ips : List BannedIp)
        → Bans us bans ips
        → Bans (us ++ more) bans ips)
      → (uname token : String) (admin : Bool) → user_violation e uname token db.users.rows ≡ none
      → IsSoundWith Bans (with_user e uname token admin db)
  with_user-IsSound grown uname token admin free = record {
    users =
        appended-IsKeyed (λ (u : User). u.user_id) e fresh (new_user uname token admin) (λ i. refl)
          db.users v.users;
    communities = v.communities;
    channels = v.channels;
    messages = v.messages;
    user_names =
        IsUnique-snoc (λ (u : User). u.uname) db.users.rows _
          (unnamed_before e uname token db.users.rows free) v.user_names;
    community_names = v.community_names;
    channel_names = v.channel_names;
    community_admins =
        Refers-grow (λ (c : Community). c.admin) has_id db.communities.rows db.users.rows _
          v.community_admins;
    channel_admins =
        Refers-grow (λ (c : Channel). c.admin) has_id db.channels.rows db.users.rows _
          v.channel_admins;
    channel_communities = v.channel_communities;
    message_authors =
        Refers-grow (λ (m : Message). m.user_id) has_id db.message.rows db.users.rows _
          v.message_authors;
    message_channels = v.message_channels;
    bans = grown db.users.rows _ db.banned_users.rows db.banned_ips.rows v.bans;
  }

  pub refused_user-IsSound : (violation : Exception) → IsSoundWith Bans (refused_user e db)
  refused_user-IsSound violation = record {
    users =
        insert-IsKeyed (λ (u : User). u.user_id) e fresh (new_user "" "" false) (λ i. refl) db.users
          v.users (some violation);
    communities = v.communities;
    channels = v.channels;
    messages = v.messages;
    user_names = v.user_names;
    community_names = v.community_names;
    channel_names = v.channel_names;
    community_admins = v.community_admins;
    channel_admins = v.channel_admins;
    channel_communities = v.channel_communities;
    message_authors = v.message_authors;
    message_channels = v.message_channels;
    bans = v.bans;
  }

  module _ (ready : IsReady db) (enforced : e.enforces_references ≡ true) where
    pub with_community-IsSound :
        (name : String) (admin : ℕ) (pub_flag : Bool)
        → community_violation e name admin db ≡ none
        → IsSoundWith Bans (with_community e name admin pub_flag db)
    with_community-IsSound name admin pub_flag free = record {
      users = v.users;
      communities =
          appended-IsKeyed (λ (c : Community). c.community_id) e fresh
            (new_community name admin pub_flag) (λ i. refl) db.communities v.communities;
      channels = v.channels;
      messages = v.messages;
      user_names = v.user_names;
      community_names =
          IsUnique-snoc (λ (c : Community). c.name) db.communities.rows _
            (community_unnamed e name admin pub_flag db ready free) v.community_names;
      channel_names = v.channel_names;
      community_admins =
          Refers-snoc (λ (c : Community). c.admin) has_id db.communities.rows _ db.users.rows
            (community_admin_known e name admin pub_flag db ready enforced free) v.community_admins;
      channel_admins = v.channel_admins;
      channel_communities =
          Refers-grow (λ (c : Channel). c.community) has_community_id db.channels.rows
            db.communities.rows _ v.channel_communities;
      message_authors = v.message_authors;
      message_channels = v.message_channels;
      bans = v.bans;
    }

    pub with_channel-IsSound :
        (name : String) (community admin : ℕ) (anonymous : Bool)
        → channel_violation e name community admin db ≡ none
        → IsSoundWith Bans (with_channel e name community admin anonymous db)
    with_channel-IsSound name community admin anonymous free = record {
      users = v.users;
      communities = v.communities;
      channels =
          appended-IsKeyed (λ (c : Channel). c.channel_id) e fresh
            (new_channel name community admin anonymous) (λ i. refl) db.channels v.channels;
      messages = v.messages;
      user_names = v.user_names;
      community_names = v.community_names;
      channel_names =
          IsUnique-snoc (λ (c : Channel). c.name) db.channels.rows _
            (channel_unnamed e name community admin anonymous db ready free) v.channel_names;
      community_admins = v.community_admins;
      channel_admins =
          Refers-snoc (λ (c : Channel). c.admin) has_id db.channels.rows _ db.users.rows
            (channel_admin_known e name community admin anonymous db ready enforced free)
            v.channel_admins;
      channel_communities =
          Refers-snoc (λ (c : Channel). c.community) has_community_id db.channels.rows _
            db.communities.rows
            (channel_community_known e name community admin anonymous db ready enforced free)
            v.channel_communities;
      message_authors = v.message_authors;
      message_channels =
          Refers-grow (λ (m : Message). m.channel) has_channel_id db.message.rows db.channels.rows _
            v.message_channels;
      bans = v.bans;
    }

    pub with_message-IsSound :
        (now : ℕ) (p : Post)
        → message_violation e p db ≡ none
        → IsSoundWith Bans (with_message e now p db)
    unfolding message_violation
    with_message-IsSound now p free = record {
      users = v.users;
      communities = v.communities;
      channels = v.channels;
      messages =
          appended-IsKeyed (λ (m : Message). m.msg_id) e fresh (new_message now p) (λ i. refl)
            db.message v.messages;
      user_names = v.user_names;
      community_names = v.community_names;
      channel_names = v.channel_names;
      community_admins = v.community_admins;
      channel_admins = v.channel_admins;
      channel_communities = v.channel_communities;
      message_authors =
          Refers-snoc (λ (m : Message). m.user_id) has_id db.message.rows _ db.users.rows
            (ground (arith, enforced, free)) v.message_authors;
      message_channels =
          Refers-snoc (λ (m : Message). m.channel) has_channel_id db.message.rows _ db.channels.rows
            (ground (arith, enforced, free)) v.message_channels;
      bans = v.bans;
    }

  pub refused_community-IsSound :
      (violation : Exception) → IsSoundWith Bans (refused_community e db)
  refused_community-IsSound violation = record {
    users = v.users;
    communities =
        insert-IsKeyed (λ (c : Community). c.community_id) e fresh (new_community "" 0 false)
          (λ i. refl) db.communities v.communities (some violation);
    channels = v.channels;
    messages = v.messages;
    user_names = v.user_names;
    community_names = v.community_names;
    channel_names = v.channel_names;
    community_admins = v.community_admins;
    channel_admins = v.channel_admins;
    channel_communities = v.channel_communities;
    message_authors = v.message_authors;
    message_channels = v.message_channels;
    bans = v.bans;
  }

  pub refused_channel-IsSound : (violation : Exception) → IsSoundWith Bans (refused_channel e db)
  refused_channel-IsSound violation = record {
    users = v.users;
    communities = v.communities;
    channels =
        insert-IsKeyed (λ (c : Channel). c.channel_id) e fresh (new_channel "" 0 0 false)
          (λ i. refl) db.channels v.channels (some violation);
    messages = v.messages;
    user_names = v.user_names;
    community_names = v.community_names;
    channel_names = v.channel_names;
    community_admins = v.community_admins;
    channel_admins = v.channel_admins;
    channel_communities = v.channel_communities;
    message_authors = v.message_authors;
    message_channels = v.message_channels;
    bans = v.bans;
  }

  pub refused_message-IsSound :
      Post → (violation : Exception) → IsSoundWith Bans (refused_message e db)
  refused_message-IsSound p violation = record {
    users = v.users;
    communities = v.communities;
    channels = v.channels;
    messages =
        insert-IsKeyed (λ (m : Message). m.msg_id) e fresh (new_message 0 p) (λ i. refl) db.message
          v.messages (some violation);
    user_names = v.user_names;
    community_names = v.community_names;
    channel_names = v.channel_names;
    community_admins = v.community_admins;
    channel_admins = v.channel_admins;
    channel_communities = v.channel_communities;
    message_authors = v.message_authors;
    message_channels = v.message_channels;
    bans = v.bans;
  }
