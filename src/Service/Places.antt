-- ===== src/Service/Places.antt =====
-- The handlers that create and list communities and channels (WrongthinkServiceImpl.cpp).
pub mod Rows
pub mod Listing
pub mod Creating
use wrongthink.Base.{ℕ, String, Bool, List, ◌==◌, not}
use wrongthink.Proto.{
  Status, WrongthinkCommunity, WrongthinkChannel, CreateWrongthinkCommunityRequest,
  CreateWrongThinkChannelRequest,
}
use wrongthink.Db.Engine.{Engine}
use wrongthink.Db.Cells.{Row}
use wrongthink.Db.Channels.{
  create_channel, create_community, get_community_rowset, get_community_channels_rowset,
}
use wrongthink.Service.{Service, on_db, answered, streamed}
use wrongthink.Service.Places.Rows.{community_of_row, channel_of_row}

pub create_wrongthink_channel :
    Engine
    → CreateWrongThinkChannelRequest
    → WrongthinkChannel
    → Service
    → Status × WrongthinkChannel × Service
create_wrongthink_channel e request response s =
    answered response (λ id. record response { channelid = id })
      (on_db (create_channel e request.name request.communityid request.adminid request.anonymous)
        s)

pub create_wrongthink_community :
    Engine
    → ℕ
    → CreateWrongthinkCommunityRequest
    → WrongthinkCommunity
    → Service
    → Status × WrongthinkCommunity × Service
create_wrongthink_community e garbage request response s =
    answered response (λ id. record response { communityid = id })
      (on_db (create_community e garbage request.name request.adminid request.public) s)

pub get_wrongthink_communities :
    (List Row → List Row) → Service → Status × List WrongthinkCommunity × Service
get_wrongthink_communities scan s = streamed community_of_row (on_db (get_community_rowset scan) s)

pub get_wrongthink_channels : ℕ → Service → Status × List WrongthinkChannel × Service
get_wrongthink_channels community s =
    streamed (channel_of_row community) (on_db (get_community_channels_rowset community) s)
