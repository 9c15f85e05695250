-- ===== src/Tests/Creating.antt =====
-- The properties of calls that create, at the sample states.
use wrongthink.Base.{ℕ, true, false, [], ◌∷◌, ◌++◌, map, any, ◌≡◌, refl, arith}
use wrongthink.Action.{ok}
use wrongthink.Proto.{
  StatusCode, no_user, no_channel, no_community, CreateUserRequest, CreateWrongThinkChannelRequest,
  CreateWrongthinkCommunityRequest,
}
use wrongthink.Db.Users.{user_violation}
use wrongthink.Db.Channels.{channel_violation}
use wrongthink.Service.Cache.{channel_exists, history, IsServing}
use wrongthink.Service.Accounts.{create_user_rpc}
use wrongthink.Service.Accounts.Creating.{user_refusal, user_result, create_user_rpc_lem}
use wrongthink.Service.Places.{
  create_wrongthink_channel, create_wrongthink_community, get_wrongthink_channels,
}
use wrongthink.Service.Places.Creating.{
  channel_refusal, channel_result, create_wrongthink_channel_lem, community_refusal,
  community_result, create_wrongthink_community_lem, IsListable, entry, get_channels-create_channel,
}
use wrongthink.Service.Messaging.{listen_start}
use wrongthink.Service.Messaging.Listening.{listen_start_lem}
use wrongthink.Tests.Engines.{postgres, postgres-IssuesFreshIds}
use wrongthink.Tests.Samples.{chat, chat_db, chat-IsReady, chat-IsServing}

abbrev random : CreateWrongThinkChannelRequest
random = record { name = "random"; communityid = 1; adminid = 2; anonymous = true }

create_wrongthink_channel_lem_example :
    create_wrongthink_channel postgres random no_channel chat
    ≡ channel_result postgres random no_channel chat
        (channel_refusal postgres random no_channel chat)
create_wrongthink_channel_lem_example =
    create_wrongthink_channel_lem postgres random no_channel chat chat-IsReady

abbrev books : CreateWrongthinkCommunityRequest
books = record { name = "books"; adminid = 2; public = true }

create_wrongthink_community_lem_example :
    create_wrongthink_community postgres 17 books no_community chat
    ≡ community_result postgres 17 books no_community chat
        (community_refusal postgres 17 books no_community chat)
create_wrongthink_community_lem_example =
    create_wrongthink_community_lem postgres 17 books no_community chat chat-IsReady

chat-IsListable : IsListable chat
unfolding any
chat-IsListable = record {
  ready = chat-IsReady;
  accounts = (omega arith, (omega arith, tt));
  channels = record {
    rising = (omega arith, tt);
    below = (omega arith, tt);
    started = omega arith;
  };
  admins = (refl, tt);
}

get_channels-create_channel_example :
    map entry
      (get_wrongthink_channels 1 (create_wrongthink_channel postgres random no_channel chat).2).1
    ≡ map entry (get_wrongthink_channels 1 chat).1
      ++ ((create_wrongthink_channel postgres random no_channel chat).1.channelid, "random") ∷ []
unfolding any channel_violation
get_channels-create_channel_example =
    get_channels-create_channel postgres random no_channel chat postgres-IssuesFreshIds refl
      chat-IsListable refl

abbrev dave : CreateUserRequest
dave = record { uname = "dave"; password = "pw"; admin = false }

create_user_rpc_lem_example :
    create_user_rpc postgres dave no_user chat
    ≡ user_result postgres dave no_user chat (user_refusal postgres dave no_user chat)
create_user_rpc_lem_example = create_user_rpc_lem postgres dave no_user chat chat-IsReady

dave_answered : (create_user_rpc postgres dave no_user chat).0.code ≡ StatusCode.ok
unfolding any user_violation
dave_answered = rw (create_user_rpc_lem postgres dave no_user chat chat-IsReady) refl

listen_start_lem_example :
    ((listen_start postgres 1 chat).0 ≡ ok (channel_exists 1 chat_db))
    × ((j : ℕ)
        → history j (listen_start postgres 1 chat).1.channel_map ≡ history j chat.channel_map)
    × ((listen_start postgres 1 chat).1.db ≡ chat_db)
    × IsServing (listen_start postgres 1 chat).1
listen_start_lem_example = listen_start_lem postgres 1 chat refl chat-IsServing
