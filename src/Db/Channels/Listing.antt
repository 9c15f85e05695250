-- ===== src/Db/Channels/Listing.antt =====
-- What the selects on communities and channels return on a complete schema.
use wrongthink.Base.{ℕ, ◌≡◌, refl, List, find?, filter}
use wrongthink.Action.{ok}
use wrongthink.Db.Engine.{Engine}
use wrongthink.Db.Tables.{Db}
use wrongthink.Db.Cells.{Row, community_cells, channel_cells, inner_join}
use wrongthink.Db.Order.{order_by}
use wrongthink.Db.Sql.{names_resolve}
use wrongthink.Db.Sql.Schema.{TableName, IsReady}
use wrongthink.Db.Sql.Statements.{
  select_channel, select_communities, select_channels, execute_ready,
}
use wrongthink.Db.Channels.{
  has_channel_id, in_community, name_row, get_channel_row, get_community_rowset,
  get_community_channels_rowset,
}

module _ (db : Db) (ready : IsReady db) where
  pub get_channel_row_ready :
      (e : Engine) (id : ℕ)
      → get_channel_row e id db ≡ (ok (name_row e (find? (has_channel_id id) db.channels.rows)), db)
  unfolding get_channel_row names_resolve
  get_channel_row_ready e id = execute_ready select_channel _ db ready refl

  pub get_community_rowset_ready :
      (scan : List Row → List Row)
      → get_community_rowset scan db ≡ (
        ok (
            scan (
              inner_join TableName.communities
                (λ c. c.admin)
                community_cells
                db.communities.rows
                db.users.rows)),
        db,
      )
  unfolding get_community_rowset names_resolve
  get_community_rowset_ready scan = execute_ready select_communities _ db ready refl

  pub get_community_channels_rowset_ready :
      (id : ℕ)
      → get_community_channels_rowset id db ≡ (
        ok (
            inner_join TableName.channels
              (λ c. c.admin)
              channel_cells
              (order_by (λ c. c.channel_id) (filter (in_community id) db.channels.rows))
              db.users.rows),
        db,
      )
  unfolding get_community_channels_rowset names_resolve
  get_community_channels_rowset_ready id = execute_ready select_channels _ db ready refl
