-- ===== src/Service/Places/Creating.antt =====
-- `CreateWrongthinkChannel` and `CreateWrongthinkCommunity` (WrongthinkServiceImpl.cpp), and what is
-- listed after them.
use mathlib.Core.List.{map-append}
use wrongthink.Base.{
  ℕ, String, true, Option, none, some, [], ◌∷◌, ◌++◌, map, filter, filter-append, any, ◌≡◌, refl,
  ap, ◌∙◌, sym, ==_refl, All, All-append, All-filter, Option-cases, inl, inr,
}
use wrongthink.Action.{Exception}
use wrongthink.Proto.{
  Status, ok_status, internal_status, WrongthinkChannel, WrongthinkCommunity,
  CreateWrongThinkChannelRequest, CreateWrongthinkCommunityRequest,
}
use wrongthink.Db.Engine.{Engine, IssuesFreshIds}
use wrongthink.Db.Tables.{User, Channel, Community, next_id}
use wrongthink.Db.Keys.{IsKeyed, appended-IsKeyed}
use wrongthink.Db.Order.{Rising}
use wrongthink.Db.Sql.Schema.{IsReady}
use wrongthink.Db.Users.{has_id}
use wrongthink.Db.Channels.{in_community, channel_violation, community_violation}
use wrongthink.Db.Channels.Creation.{
  new_channel, with_channel, refused_channel, with_channel-IsReady, channel_admin_known,
  create_channel_created, create_channel_refused, with_community, refused_community,
  create_community_created, create_community_refused,
}
use wrongthink.Service.{Service}
use wrongthink.Service.Joins.{map-views}
use wrongthink.Service.Places.{
  create_wrongthink_channel, create_wrongthink_community, get_wrongthink_channels,
}
use wrongthink.Service.Places.Listing.{channel_view, get_wrongthink_channels_lem}

module _ (e : Engine) (request : CreateWrongThinkChannelRequest) (response : WrongthinkChannel)
    (s : Service) where
  abbrev pub channel_refusal : Option Exception
  channel_refusal = channel_violation e request.name request.communityid request.adminid s.db

  -- The key of the new channel.
  abbrev pub channel_key : ℕ
  channel_key = next_id e (λ (c : Channel). c.channel_id) s.db.channels

  -- The service with the channel of the request.
  abbrev pub channel_added : Service
  channel_added = record s {
    db = with_channel e request.name request.communityid request.adminid request.anonymous s.db;
  }

  -- What the call answers and leaves, by the constraint that the row violates, if any.
  abbrev pub channel_result : Option Exception → Status × WrongthinkChannel × Service
  channel_result none = (ok_status, record response { channelid = channel_key }, channel_added)
  channel_result (some x) = (internal_status, response, record s { db = refused_channel e s.db })

  -- On a complete schema, a channel whose name is new and fits, in a community and of a user that
  -- exist where references are enforced, is stored and its key answered; any other is refused with
  -- INTERNAL, and only the sequence of keys may have moved.
  pub create_wrongthink_channel_lem :
      IsReady s.db → create_wrongthink_channel e request response s ≡ channel_result channel_refusal
  unfolding create_wrongthink_channel
  create_wrongthink_channel_lem ready = elim (Option-cases channel_refusal) [
    | inl free ↦ rw (
      create_channel_created e request.name request.communityid request.adminid request.anonymous
          s.db ready free,
      free,
    )
    | inr (x, refused) ↦ rw (
      create_channel_refused e request.name request.communityid request.adminid request.anonymous
          s.db ready x refused,
      refused,
    )
  ]

module _ (e : Engine) (garbage : ℕ) (request : CreateWrongthinkCommunityRequest)
    (response : WrongthinkCommunity) (s : Service) where
  abbrev pub community_refusal : Option Exception
  community_refusal = community_violation e request.name request.adminid s.db

  abbrev pub community_result : Option Exception → Status × WrongthinkCommunity × Service
  community_result none = (
    ok_status,
    record response {
      communityid = next_id e (λ (c : Community). c.community_id) s.db.communities;
    },
    record s { db = with_community e request.name request.adminid request.public s.db },
  )
  community_result (some x) =
      (internal_status, response, record s { db = refused_community e s.db })

  -- On a complete schema, a community whose name is new and fits, of a user that exists where
  -- references are enforced, is stored and its key answered, whatever the uninitialised variable
  -- holds; any other is refused with INTERNAL, and only the sequence of keys may have moved.
  pub create_wrongthink_community_lem :
      IsReady s.db
      → create_wrongthink_community e garbage request response s
        ≡ community_result community_refusal
  unfolding create_wrongthink_community
  create_wrongthink_community_lem ready = elim (Option-cases community_refusal) [
    | inl free ↦ rw (
      create_community_created e request.name request.adminid request.public s.db ready garbage
          free,
      free,
    )
    | inr (x, refused) ↦ rw (
      create_community_refused e request.name request.adminid request.public s.db ready garbage x
          refused,
      refused,
    )
  ]

-- A state in which every channel can be listed.
pub record IsListable (s : Service) : Type 0 where
  pub ready : IsReady s.db
  pub accounts : Rising (λ (u : User). u.user_id) 1 s.db.users.rows
  pub channels : IsKeyed (λ (c : Channel). c.channel_id) s.db.channels
  pub admins : All (λ (c : Channel). any (has_id c.admin) s.db.users.rows ≡ true) s.db.channels.rows

-- The key and the name of a channel.
abbrev pub entry : WrongthinkChannel → ℕ × String
entry c = (c.channelid, c.name)

abbrev entry_of_row : Channel → ℕ × String
entry_of_row c = (c.channel_id, c.name)

listed :
    (id : ℕ) (s : Service)
    → IsListable s
    → map entry (get_wrongthink_channels id s).1
      ≡ map entry_of_row (filter (in_community id) s.db.channels.rows)
listed id s v = rw (get_wrongthink_channels_lem id s v.ready v.channels.rising) (
    map-views (λ (c : Channel). c.admin) (channel_view id) entry_of_row entry (λ c u. refl)
      s.db.users.rows v.accounts (filter (in_community id) s.db.channels.rows)
      (All-filter _ (in_community id) s.db.channels.rows v.admins))

module _ (e : Engine) (request : CreateWrongThinkChannelRequest) (response : WrongthinkChannel)
    (s : Service) (fresh : IssuesFreshIds e) (enforced : e.enforces_references ≡ true)
    (v : IsListable s) (free : channel_refusal e request response s ≡ none) where
  admin_known : any (has_id request.adminid) s.db.users.rows ≡ true
  admin_known =
      channel_admin_known e request.name request.communityid request.adminid request.anonymous s.db
        v.ready enforced free

  pub channel_added-IsListable : IsListable (channel_added e request response s)
  channel_added-IsListable = record {
    ready =
        with_channel-IsReady e request.name request.communityid request.adminid request.anonymous
          s.db v.ready;
    accounts = v.accounts;
    channels =
        appended-IsKeyed (λ (c : Channel). c.channel_id) e fresh
          (new_channel request.name request.communityid request.adminid request.anonymous)
          (λ i. refl) s.db.channels v.channels;
    admins = All-append _ s.db.channels.rows _ v.admins (admin_known, tt);
  }

  -- In a state in which every channel can be listed, after a channel was created that no constraint
  -- refuses, the keys and names listed of its community are those of before and behind them the new
  -- one, under the key that the call answered. This is so where references are enforced and new
  -- rows get fresh keys.
  pub get_channels-create_channel :
      map entry
        (get_wrongthink_channels request.communityid
          (create_wrongthink_channel e request response s).2).1
      ≡ map entry (get_wrongthink_channels request.communityid s).1
        ++ ((create_wrongthink_channel e request response s).1.channelid, request.name) ∷ []
  unfolding filter
  get_channels-create_channel =
      rw (create_wrongthink_channel_lem e request response s v.ready, free)
        (listed request.communityid (channel_added e request response s) channel_added-IsListable
          ∙ ap (map entry_of_row)
              (filter-append (in_community request.communityid) s.db.channels.rows _)
          ∙ rw (==_refl request.communityid) (
              map-append entry_of_row (filter (in_community request.communityid) s.db.channels.rows)
                _)
          ∙ ap (λ l. l ++ (channel_key e request response s, request.name) ∷ [])
              (sym (listed request.communityid s v)))
