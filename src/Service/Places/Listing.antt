-- ===== src/Service/Places/Listing.antt =====
-- What `GetWrongthinkChannelsImpl` and `GetWrongthinkCommunitiesImpl` write
-- (WrongthinkServiceImpl.cpp).
use mathlib.Core.List.{Perm, Permᴰ}
use mathlib.Core.Logic.{∥∥₁_elim}
use mathlib.Core.List.{Perm-prop}
use wrongthink.Base.{ℕ, true, List, filter, ◌≡◌, refl, ap, arith, All, All-of-filter, ==→eq, ◌<◌}
use wrongthink.Action.{Outcome, ok}
use wrongthink.Proto.{StatusCode, WrongthinkChannel, WrongthinkCommunity, ok_status}
use wrongthink.Db.Tables.{User, Channel, Community}
use wrongthink.Db.Cells.{Row, join_row, inner_join, channel_cells, community_cells}
use wrongthink.Db.Order.{Rising, Rising-filter, order_by-Rising}
use wrongthink.Db.Sql.Schema.{TableName, IsReady}
use wrongthink.Db.Channels.{in_community}
use wrongthink.Db.Channels.Listing.{get_community_channels_rowset_ready, get_community_rowset_ready}
use wrongthink.Service.{Service, write_rows, status_of}
use wrongthink.Service.Shuffles.{Writes-perm}
use wrongthink.Service.Joins.{views, All-views, write_rows-inner_join}
use wrongthink.Service.Places.{get_wrongthink_channels, get_wrongthink_communities}
use wrongthink.Service.Places.Rows.{truth, channel_of_row, community_of_row}

-- A channel with the name of its admin. The column read for `anonymous` is `community`.
abbrev pub channel_view : ℕ → Channel → User → WrongthinkChannel
channel_view community c u = record {
  channelid = c.channel_id;
  name = c.name;
  anonymous = truth c.community;
  communityid = community;
  unameadmin = u.uname;
}

reads_channel :
    (id : ℕ) (c : Channel) (u : User)
    → channel_of_row id (join_row TableName.channels (λ c. c.admin) channel_cells c u)
      ≡ ok (channel_view id c u)
unfolding channel_of_row
reads_channel id c u = refl

-- On a complete schema, where the keys of channels rise in the order of insertion, the call writes
-- each channel of the community in the order of their keys, with the name of its admin, once for
-- each account that has the admin's key, and with `anonymous` set exactly if the key of its
-- community is not 0; it answers OK and changes nothing.
pub get_wrongthink_channels_lem :
    (id : ℕ) (s : Service)
    → IsReady s.db
    → Rising (λ (c : Channel). c.channel_id) 1 s.db.channels.rows
    → get_wrongthink_channels id s ≡ (
      ok_status,
      views
          (λ c. c.admin)
          (channel_view id)
          (filter (in_community id) s.db.channels.rows)
          s.db.users.rows,
      s,
    )
unfolding get_wrongthink_channels
get_wrongthink_channels_lem id s ready rising = rw (
  get_community_channels_rowset_ready s.db ready id,
  order_by-Rising (λ (c : Channel). c.channel_id) 1 (filter (in_community id) s.db.channels.rows)
      (Rising-filter (λ (c : Channel). c.channel_id) (in_community id) 1 s.db.channels.rows rising),
  write_rows-inner_join TableName.channels (λ (c : Channel). c.admin) channel_cells
      (channel_of_row id) (channel_view id) (reads_channel id)
      (filter (in_community id) s.db.channels.rows) s.db.users.rows,
)

-- On a complete schema, where the keys of channels rise in the order of insertion: in a community
-- whose key is not 0, as every key that the database hands out, each channel is written as one that
-- allows anonymous posting, also if it does not.
pub get_wrongthink_channels-anonymous :
    (id : ℕ) (s : Service)
    → IsReady s.db
    → Rising (λ (c : Channel). c.channel_id) 1 s.db.channels.rows
    → 0 < id
    → All (λ (c : WrongthinkChannel). c.anonymous ≡ true) (get_wrongthink_channels id s).1
get_wrongthink_channels-anonymous id s ready rising positive =
    rw (get_wrongthink_channels_lem id s ready rising) (
      All-views (λ (c : Channel). c.admin) (channel_view id)
        (λ (c : Channel). in_community id c ≡ true) (λ c. c.anonymous ≡ true)
        (λ c u here. ground (arith, ==→eq id c.community here)) s.db.users.rows
        (filter (in_community id) s.db.channels.rows)
        (All-of-filter (in_community id) s.db.channels.rows))

-- A community with the name of its admin.
abbrev pub community_view : Community → User → WrongthinkCommunity
community_view c u = record { communityid = c.community_id; name = c.name; unameadmin = u.uname }

reads_community :
    (c : Community) (u : User)
    → community_of_row (join_row TableName.communities (λ c. c.admin) community_cells c u)
      ≡ ok (community_view c u)
unfolding community_of_row
reads_community c u = refl

-- Listing the communities changes nothing, in whatever order the engine scans the rows.
pub get_wrongthink_communities-state :
    (scan : List Row → List Row) (s : Service)
    → IsReady s.db
    → (get_wrongthink_communities scan s).2 ≡ s
unfolding get_wrongthink_communities
get_wrongthink_communities-state scan s ready = rw (get_community_rowset_ready s.db ready scan) refl

-- On a complete schema, where the engine returns each row once, in an order of its own, the call
-- writes in some order each community with the name of its admin, once for each account that has
-- the admin's key; it answers OK and changes nothing.
pub get_wrongthink_communities_lem :
    (scan : List Row → List Row) (s : Service)
    → IsReady s.db
    → ((rows : List Row) → Perm (scan rows) rows)
    → ((get_wrongthink_communities scan s).0.code ≡ StatusCode.ok)
      × Perm
          (get_wrongthink_communities scan s).1
          (views (λ c. c.admin) community_view s.db.communities.rows s.db.users.rows)
      × ((get_wrongthink_communities scan s).2 ≡ s)
unfolding get_wrongthink_communities
get_wrongthink_communities_lem scan s ready shuffles =
    rw (get_community_rowset_ready s.db ready scan) (
      ∥∥₁_elim (shuffles rows) (hlevel) (λ p.
          ap (λ (w : List WrongthinkCommunity × Outcome (Unit {0})). (status_of w.1).code)
            ((written p).1)),
      ∥∥₁_elim (shuffles rows) Perm-prop (λ p.
          let (ns, w, shuffled) = written p in
          rw (ap (λ (v : List WrongthinkCommunity × Outcome (Unit {0})). v.0) w) (∣ shuffled ∣₁)),
      refl,
    )
  where
    rows : List Row
    rows =
        inner_join TableName.communities (λ (c : Community). c.admin) community_cells
          s.db.communities.rows s.db.users.rows

    written :
        Permᴰ (scan rows) rows
        → (ns : List WrongthinkCommunity) × (write_rows community_of_row (scan rows) ≡ (ns, ok tt))
          × Permᴰ ns (views (λ c. c.admin) community_view s.db.communities.rows s.db.users.rows)
    written p = Writes-perm community_of_row p _ (
        write_rows-inner_join TableName.communities (λ (c : Community). c.admin) community_cells
          community_of_row community_view reads_community s.db.communities.rows s.db.users.rows)
