-- ===== src/Tests/Serving.antt =====
-- The properties of live channels and of the listings, at the sample states.
use wrongthink.Base.{◌≡◌, refl, filter, arith}
use mathlib.Core.List.{Perm}
use mathlib.Core.List.Perm
use wrongthink.Proto.{StatusCode, ok_status}
use wrongthink.Db.Channels.{in_community}
use wrongthink.Service.Cache.{IsChecked, check_for_channel_exact}
use wrongthink.Service.Joins.{views}
use wrongthink.Service.Places.{get_wrongthink_channels, get_wrongthink_communities}
use wrongthink.Service.Places.Listing.{
  channel_view, community_view, get_wrongthink_channels_lem, get_wrongthink_communities_lem,
}
use wrongthink.Tests.Engines.{postgres}
use wrongthink.Tests.Samples.{chat, chat_db, chat-IsReady, chat-IsServing}

check_for_channel_exact_example : IsChecked postgres 1 chat
check_for_channel_exact_example = check_for_channel_exact postgres 1 chat refl chat-IsServing

get_wrongthink_channels_lem_example : get_wrongthink_channels 1 chat ≡ (
  ok_status,
  views
      (λ c. c.admin)
      (channel_view 1)
      (filter (in_community 1) chat_db.channels.rows)
      chat_db.users.rows,
  chat,
)
get_wrongthink_channels_lem_example =
    get_wrongthink_channels_lem 1 chat chat-IsReady (omega arith, tt)

get_wrongthink_communities_lem_example :
    ((get_wrongthink_communities (λ rows. rows) chat).0.code ≡ StatusCode.ok)
    × Perm
        (get_wrongthink_communities (λ rows. rows) chat).1
        (views (λ c. c.admin) community_view chat_db.communities.rows chat_db.users.rows)
    × ((get_wrongthink_communities (λ rows. rows) chat).2 ≡ chat)
get_wrongthink_communities_lem_example =
    get_wrongthink_communities_lem (λ rows. rows) chat chat-IsReady (λ rows. Perm.refl rows)
