-- ===== src/Db/Channels/Creation.antt =====
-- What `createChannel` and `createCommunity` do on a complete schema (DB/DBPostgres.cpp).
use wrongthink.Base.{
  ℕ, String, Bool, true, false, none, some, [], ◌∷◌, ◌≡◌, refl, ◌∙◌, arith, any, find?,
  find?-append_none, eq_refl,
}
use wrongthink.Action.{Exception, ok, thrown}
use wrongthink.Db.Engine.{Engine}
use wrongthink.Db.Tables.{Channel, Community, Db, next_id, appended}
use wrongthink.Db.Sql.{names_resolve}
use wrongthink.Db.Sql.Schema.{IsReady}
use wrongthink.Db.Sql.Statements.{
  insert_channel, select_channel, insert_community, select_community_id, execute_ready,
}
use wrongthink.Db.Users.{has_id}
use wrongthink.Db.Channels.{
  has_community_id, channel_named, community_named, channel_violation, insert_channel_row,
  key_of_channel, select_channel_id, create_channel, community_violation, insert_community_row,
  key_of_community, select_community, create_community,
}

abbrev pub new_channel : String → ℕ → ℕ → Bool → ℕ → Channel
new_channel name community admin_id anonymous id = record {
  channel_id = id;
  name = name;
  community = community;
  admin = admin_id;
  allow_anon = anonymous;
}

abbrev pub new_community : String → ℕ → Bool → ℕ → Community
new_community name admin pub_flag id = record {
  community_id = id;
  name = name;
  admin = admin;
  public = pub_flag;
}

-- The database with one more channel, or community.
abbrev pub with_channel : Engine → String → ℕ → ℕ → Bool → Db → Db
with_channel e name community admin_id anonymous db = record db {
  channels =
      appended e (λ c. c.channel_id) (new_channel name community admin_id anonymous) db.channels;
}

abbrev pub with_community : Engine → String → ℕ → Bool → Db → Db
with_community e name admin pub_flag db = record db {
  communities = appended e (λ c. c.community_id) (new_community name admin pub_flag) db.communities;
}

abbrev pub refused_channel : Engine → Db → Db
refused_channel e db = record db {
  channels = record db.channels { sequence = e.after_failure db.channels.sequence };
}

abbrev pub refused_community : Engine → Db → Db
refused_community e db = record db {
  communities = record db.communities { sequence = e.after_failure db.communities.sequence };
}

module _ (name : String) (db : Db) (ready : IsReady db) where
  pub select_channel_id_ready :
      select_channel_id name db
      ≡ (ok (key_of_channel (find? (channel_named name) db.channels.rows)), db)
  unfolding select_channel_id names_resolve
  select_channel_id_ready = execute_ready select_channel _ db ready refl

  pub select_community_ready :
      select_community name db
      ≡ (ok (key_of_community (find? (community_named name) db.communities.rows)), db)
  unfolding select_community names_resolve
  select_community_ready = execute_ready select_community_id _ db ready refl

module _ (e : Engine) (name : String) (community admin_id : ℕ) (anonymous : Bool) (db : Db)
    (ready : IsReady db) where
  pub insert_channel_row_accepted :
      channel_violation e name community admin_id db ≡ none
      → insert_channel_row e name community admin_id anonymous db
        ≡ (ok tt, with_channel e name community admin_id anonymous db)
  unfolding insert_channel_row names_resolve
  insert_channel_row_accepted h = execute_ready insert_channel _ db ready refl ∙ rw h

  pub insert_channel_row_refused :
      (violation : Exception)
      → channel_violation e name community admin_id db ≡ some violation
      → insert_channel_row e name community admin_id anonymous db
        ≡ (thrown violation, refused_channel e db)
  unfolding insert_channel_row names_resolve
  insert_channel_row_refused violation h = execute_ready insert_channel _ db ready refl ∙ rw h

  pub with_channel-IsReady : IsReady (with_channel e name community admin_id anonymous db)
  with_channel-IsReady = ground arith

  pub channel_unnamed :
      channel_violation e name community admin_id db ≡ none
      → any (channel_named name) db.channels.rows ≡ false
  unfolding channel_violation
  channel_unnamed h = ground arith

  -- Where references are enforced, a channel that was not refused has an account as its admin, and a
  -- community.
  pub channel_admin_known :
      e.enforces_references ≡ true
      → channel_violation e name community admin_id db ≡ none
      → any (has_id admin_id) db.users.rows ≡ true
  unfolding channel_violation
  channel_admin_known enforced h = ground (arith, enforced)

  pub channel_community_known :
      e.enforces_references ≡ true
      → channel_violation e name community admin_id db ≡ none
      → any (has_community_id community) db.communities.rows ≡ true
  unfolding channel_violation
  channel_community_known enforced h = ground (arith, enforced)

  -- The select finds the channel that was inserted.
  pub find-with_channel :
      channel_violation e name community admin_id db ≡ none
      → find?
          (channel_named name)
          (with_channel e name community admin_id anonymous db).channels.rows
        ≡ some (
            new_channel name community admin_id anonymous
              (next_id e (λ c. c.channel_id) db.channels))
  unfolding find?
  find-with_channel h =
      rw
        (
          find?-append_none (channel_named name) db.channels.rows
              (new_channel name community admin_id anonymous
                  (next_id e (λ c. c.channel_id) db.channels)
                ∷ [])
              (channel_unnamed h),
          eq_refl name,
        )
        refl

  pub create_channel_created :
      channel_violation e name community admin_id db ≡ none
      → create_channel e name community admin_id anonymous db ≡ (
        ok (next_id e (λ c. c.channel_id) db.channels),
        with_channel e name community admin_id anonymous db,
      )
  unfolding create_channel
  create_channel_created h = rw (
    insert_channel_row_accepted h,
    select_channel_id_ready name (with_channel e name community admin_id anonymous db)
        with_channel-IsReady,
    find-with_channel h,
  )

  pub create_channel_refused :
      (violation : Exception)
      → channel_violation e name community admin_id db ≡ some violation
      → create_channel e name community admin_id anonymous db
        ≡ (thrown violation, refused_channel e db)
  unfolding create_channel
  create_channel_refused violation h = rw (insert_channel_row_refused violation h)

module _ (e : Engine) (name : String) (admin : ℕ) (pub_flag : Bool) (db : Db)
    (ready : IsReady db) where
  pub insert_community_row_accepted :
      community_violation e name admin db ≡ none
      → insert_community_row e name admin pub_flag db
        ≡ (ok tt, with_community e name admin pub_flag db)
  unfolding insert_community_row names_resolve
  insert_community_row_accepted h = execute_ready insert_community _ db ready refl ∙ rw h

  pub insert_community_row_refused :
      (violation : Exception)
      → community_violation e name admin db ≡ some violation
      → insert_community_row e name admin pub_flag db ≡ (thrown violation, refused_community e db)
  unfolding insert_community_row names_resolve
  insert_community_row_refused violation h = execute_ready insert_community _ db ready refl ∙ rw h

  pub with_community-IsReady : IsReady (with_community e name admin pub_flag db)
  with_community-IsReady = ground arith

  pub community_unnamed :
      community_violation e name admin db ≡ none
      → any (community_named name) db.communities.rows ≡ false
  unfolding community_violation
  community_unnamed h = ground arith

  pub community_admin_known :
      e.enforces_references ≡ true
      → community_violation e name admin db ≡ none
      → any (has_id admin) db.users.rows ≡ true
  unfolding community_violation
  community_admin_known enforced h = ground (arith, enforced)

  -- The select finds the community that was inserted.
  pub find-with_community :
      community_violation e name admin db ≡ none
      → find? (community_named name) (with_community e name admin pub_flag db).communities.rows
        ≡ some (new_community name admin pub_flag (next_id e (λ c. c.community_id) db.communities))
  unfolding find?
  find-with_community h =
      rw
        (
          find?-append_none (community_named name) db.communities.rows
              (new_community name admin pub_flag (next_id e (λ c. c.community_id) db.communities)
                ∷ [])
              (community_unnamed h),
          eq_refl name,
        )
        refl

  pub create_community_created :
      (garbage : ℕ)
      → community_violation e name admin db ≡ none
      → create_community e garbage name admin pub_flag db ≡ (
        ok (next_id e (λ c. c.community_id) db.communities),
        with_community e name admin pub_flag db,
      )
  unfolding create_community
  create_community_created garbage h = rw (
    insert_community_row_accepted h,
    select_community_ready name (with_community e name admin pub_flag db) with_community-IsReady,
    find-with_community h,
  )

  pub create_community_refused :
      (garbage : ℕ) (violation : Exception)
      → community_violation e name admin db ≡ some violation
      → create_community e garbage name admin pub_flag db
        ≡ (thrown violation, refused_community e db)
  unfolding create_community
  create_community_refused garbage violation h = rw (insert_community_row_refused violation h)
