-- ===== src/Db/Channels.antt =====
-- Communities and channels: `createChannel`, `createCommunity`, `getCommunityRowset`,
-- `getCommunityChannelsRowset` and `getChannelRow` of DB/DBPostgres.cpp.
pub mod Listing
pub mod Creation
pub mod Threads
use wrongthink.Base.{
  ℕ, String, Bool, Option, none, some, get_or, List, [], ◌∷◌, ◌++◌, map, ◌&&◌, any, find?, filter,
  ◌==◌, leb, str_eq, not, if◌then◌else◌,
}
use wrongthink.Base.Int.{ℤ, pos}
use wrongthink.Action.{
  Action, Exception, pure, ◌>>=◌, ◌>>◌, value_too_long, unique_violation, foreign_key_violation,
}
use wrongthink.Db.Engine.{Engine, Indicator, i_ok}
use wrongthink.Db.Tables.{User, Community, Channel, Db, insert}
use wrongthink.Db.Cells.{Row, community_cells, channel_cells, inner_join}
use wrongthink.Db.Order.{order_by}
use wrongthink.Db.Sql.{execute}
use wrongthink.Db.Sql.Schema.{TableName}
use wrongthink.Db.Sql.Statements.{
  insert_channel, select_channel, insert_community, select_community_id, select_communities,
  select_channels,
}
use wrongthink.Db.Users.{has_id}

abbrev pub channel_named : String → Channel → Bool
channel_named name c = str_eq name c.name

abbrev pub has_channel_id : ℕ → Channel → Bool
has_channel_id id c = id == c.channel_id

abbrev pub community_named : String → Community → Bool
community_named name c = str_eq name c.name

abbrev pub has_community_id : ℕ → Community → Bool
has_community_id id c = id == c.community_id

-- name varchar(100) unique; community references communities; admin references users
unfoldable pub channel_violation : Engine → String → ℕ → ℕ → Db → Option Exception
channel_violation e name community admin_id db =
    if not (e.fits 100 name)
    then some value_too_long
    else if any (channel_named name) db.channels.rows
    then some unique_violation
    else if e.enforces_references
        && not (
            any (has_community_id community) db.communities.rows
            && any (has_id admin_id) db.users.rows)
    then some foreign_key_violation
    else none

pub insert_channel_row : Engine → String → ℕ → ℕ → Bool → Action Db (Unit {0})
insert_channel_row e name community admin_id anonymous = execute insert_channel (λ db.
    let (r, t) =
      insert e (λ c. c.channel_id)
        (λ id. record {
          channel_id = id;
          name = name;
          community = community;
          admin = admin_id;
          allow_anon = anonymous;
        })
        (channel_violation e name community admin_id db) db.channels in
    (r, record db { channels = t }))

abbrev pub key_of_channel : Option Channel → Option ℕ
key_of_channel none = none
key_of_channel (some c) = some c.channel_id

pub select_channel_id : String → Action Db (Option ℕ)
select_channel_id name =
    execute select_channel
      (λ db. pure (key_of_channel (find? (channel_named name) db.channels.rows)) db)

-- `channel_id` is 0 where the select finds no row.
pub create_channel : Engine → String → ℕ → ℕ → Bool → Action Db ℕ
create_channel e name community admin_id anonymous = do
  insert_channel_row e name community admin_id anonymous
  found ← select_channel_id name
  pure (get_or found 0)

-- name varchar(100) unique; admin references users
unfoldable pub community_violation : Engine → String → ℕ → Db → Option Exception
community_violation e name admin db =
    if not (e.fits 100 name)
    then some value_too_long
    else if any (community_named name) db.communities.rows
    then some unique_violation
    else if e.enforces_references && not (any (has_id admin) db.users.rows)
    then some foreign_key_violation
    else none

pub insert_community_row : Engine → String → ℕ → Bool → Action Db (Unit {0})
insert_community_row e name admin pub_flag = execute insert_community (λ db.
    let (r, t) =
      insert e (λ c. c.community_id)
        (λ id. record { community_id = id; name = name; admin = admin; public = pub_flag })
        (community_violation e name admin db) db.communities in
    (r, record db { communities = t }))

abbrev pub key_of_community : Option Community → Option ℕ
key_of_community none = none
key_of_community (some c) = some c.community_id

pub select_community : String → Action Db (Option ℕ)
select_community name =
    execute select_community_id
      (λ db. pure (key_of_community (find? (community_named name) db.communities.rows)) db)

-- `community_id` is not initialised in the source: `garbage` is its value where no row is found.
pub create_community : Engine → ℕ → String → ℕ → Bool → Action Db ℕ
create_community e garbage name admin pub_flag = do
  insert_community_row e name admin pub_flag
  found ← select_community name
  pure (get_or found garbage)

-- The engine returns the rows in an order of its own, `scan`: the statement has no `order by`.
pub get_community_rowset : (List Row → List Row) → Action Db (List Row)
get_community_rowset scan = execute select_communities (λ db.
    pure
      (scan (
        inner_join TableName.communities (λ c. c.admin) community_cells db.communities.rows
          db.users.rows))
      db)

abbrev pub in_community : ℕ → Channel → Bool
in_community community_id c = community_id == c.community

pub get_community_channels_rowset : ℕ → Action Db (List Row)
get_community_channels_rowset community_id = execute select_channels (λ db.
    pure
      (inner_join TableName.channels (λ c. c.admin) channel_cells
        (order_by (λ c. c.channel_id) (filter (in_community community_id) db.channels.rows))
        db.users.rows)
      db)

-- The one column of the selected row, and its indicator.
pub record NameRow : Type 0 where
  pub indicator : Indicator
  pub name : String

abbrev pub name_row : Engine → Option Channel → NameRow
name_row e none = record { indicator = e.missing_row; name = "" }
name_row e (some c) = record { indicator = i_ok; name = c.name }

pub get_channel_row : Engine → ℕ → Action Db NameRow
get_channel_row e channel_id =
    execute select_channel
      (λ db. pure (name_row e (find? (has_channel_id channel_id) db.channels.rows)) db)
