-- ===== src/Service/Soundness/Handlers.antt =====
-- Each handler keeps the server sound (WrongthinkServiceImpl.cpp).
use wrongthink.Base.{
  ℕ, String, true, List, ◌++◌, any, any-append, ◌≡◌, refl, arith, All, All-map, Bool-cases,
  Option-cases, inl, inr,
}
use wrongthink.Action.{Outcome, ok, thrown}
use wrongthink.Proto.{
  Status, WrongthinkUser, WrongthinkChannel, WrongthinkCommunity, GenericResponse, BanUserRequest,
  CreateUserRequest, CreateWrongThinkChannelRequest, CreateWrongthinkCommunityRequest,
}
use wrongthink.Auth.{Metadata, has_credentials}
use wrongthink.Channel.{SynchronizedChannel}
use wrongthink.Db.Engine.{Engine, i_null, IssuesFreshIds}
use wrongthink.Db.Tables.{Channel, BannedUser, Table}
use wrongthink.Db.Users.Accounts.{granted, with_user-IsReady}
use wrongthink.Db.Channels.{has_channel_id}
use wrongthink.Db.Bans.Effects.{with_bans, ban_user-IsBansOnly}
use wrongthink.Service.{ChannelMap, Service, caught}
use wrongthink.Service.Cache.{IsServing}
use wrongthink.Service.Accounts.{generate_user, create_user_rpc, ban_user_rpc}
use wrongthink.Service.Accounts.Banning.{ban_user_rpc_guarded, ban_user_rpc_allowed, missing}
use wrongthink.Service.Accounts.Creating.{
  user_refusal, create_user_rpc_lem, generated, generate_user-eq-create_user_rpc,
}
use wrongthink.Service.Places.{create_wrongthink_channel, create_wrongthink_community}
use wrongthink.Service.Places.Creating.{
  channel_refusal, create_wrongthink_channel_lem, community_refusal,
  create_wrongthink_community_lem,
}
use wrongthink.Db.Bans.Sound.{HasSoundBans, grown-HasSoundBans}
use wrongthink.Service.Soundness.{BanLaw, IsSoundWith, rebanned-IsReady, rebanned-IsSound}
use wrongthink.Service.Soundness.Inserts.{
  with_user-IsSound, refused_user-IsSound, with_community-IsSound, refused_community-IsSound,
  with_channel-IsSound, refused_channel-IsSound,
}

-- A complete schema, live channels that are in the table, and sound tables.
pub record IsServedWith (Bans : BanLaw) (s : Service) : Type 0 where
  pub serving : IsServing s
  pub sound : IsSoundWith Bans s.db

abbrev pub IsServedSoundly : Service → Type 0
IsServedSoundly s = IsServedWith HasSoundBans s

-- What the server relies on of its engine.
pub record IsReliable (e : Engine) : Type 0 where
  pub null : e.missing_row ≡ i_null
  pub fresh : IssuesFreshIds e
  pub enforced : e.enforces_references ≡ true

-- The map of live channels stays coherent where channels are added.
pub more_channels :
    (xs ys : List Channel) (m : ChannelMap)
    → All (λ (p : ℕ × SynchronizedChannel). any (has_channel_id p.0) xs ≡ true) m
    → All (λ (p : ℕ × SynchronizedChannel). any (has_channel_id p.0) (xs ++ ys) ≡ true) m
more_channels xs ys m c =
    All-map _ _ (λ p h. rw (any-append (has_channel_id p.0) xs ys, h) (ground arith)) m c

pub caught_state : {S : Type 0} (p : Outcome Status × S) → (caught p).1 ≡ p.1
caught_state (ok x, s) = refl
caught_state (thrown x, s) = refl

module _ (e : Engine) (reliable : IsReliable e) (s : Service) (v : IsServedSoundly s) where
  pub create_user_rpc-IsServedSoundly :
      (request : CreateUserRequest) (response : WrongthinkUser)
      → IsServedSoundly (create_user_rpc e request response s).2
  create_user_rpc-IsServedSoundly request response =
      elim (Option-cases (user_refusal e request response s)) [
        | inl free ↦
            rw (create_user_rpc_lem e request response s v.serving.ready, free)
              (record {
                serving = record {
                  ready =
                      with_user-IsReady e request.uname request.password
                        (granted s.db request.admin) s.db v.serving.ready;
                  coherent = v.serving.coherent;
                };
                sound =
                    with_user-IsSound e reliable.fresh s.db v.sound grown-HasSoundBans request.uname
                      request.password (granted s.db request.admin) free;
              })
        | inr (x, refused) ↦
            rw (create_user_rpc_lem e request response s v.serving.ready, refused)
              (record {
                serving = record {
                  ready = ground (arith, v.serving.ready);
                  coherent = v.serving.coherent;
                };
                sound = refused_user-IsSound e reliable.fresh s.db v.sound x;
              })
      ]

  pub generate_user-IsServedSoundly :
      (uuid1 uuid2 : String) (response : WrongthinkUser)
      → IsServedSoundly (generate_user e uuid1 uuid2 response s).2
  generate_user-IsServedSoundly uuid1 uuid2 response =
      let (status, state) = generate_user-eq-create_user_rpc e uuid1 uuid2 response s in
      rw state (create_user_rpc-IsServedSoundly (generated uuid1 uuid2) response)

  pub create_channel-IsServedSoundly :
      (request : CreateWrongThinkChannelRequest) (response : WrongthinkChannel)
      → IsServedSoundly (create_wrongthink_channel e request response s).2
  create_channel-IsServedSoundly request response =
      elim (Option-cases (channel_refusal e request response s)) [
        | inl free ↦
            rw (create_wrongthink_channel_lem e request response s v.serving.ready, free)
              (record {
                serving = record {
                  ready = ground (arith, v.serving.ready);
                  coherent = more_channels s.db.channels.rows _ s.channel_map v.serving.coherent;
                };
                sound =
                    with_channel-IsSound e reliable.fresh s.db v.sound v.serving.ready
                      reliable.enforced request.name request.communityid request.adminid
                      request.anonymous free;
              })
        | inr (x, refused) ↦
            rw (create_wrongthink_channel_lem e request response s v.serving.ready, refused)
              (record {
                serving = record {
                  ready = ground (arith, v.serving.ready);
                  coherent = v.serving.coherent;
                };
                sound = refused_channel-IsSound e reliable.fresh s.db v.sound x;
              })
      ]

  pub create_community-IsServedSoundly :
      (garbage : ℕ) (request : CreateWrongthinkCommunityRequest) (response : WrongthinkCommunity)
      → IsServedSoundly (create_wrongthink_community e garbage request response s).2
  create_community-IsServedSoundly garbage request response =
      elim (Option-cases (community_refusal e garbage request response s)) [
        | inl free ↦
            rw (create_wrongthink_community_lem e garbage request response s v.serving.ready, free)
              (record {
                serving = record {
                  ready = ground (arith, v.serving.ready);
                  coherent = v.serving.coherent;
                };
                sound =
                    with_community-IsSound e reliable.fresh s.db v.sound v.serving.ready
                      reliable.enforced request.name request.adminid request.public free;
              })
        | inr (x, refused) ↦
            rw
              (
                create_wrongthink_community_lem e garbage request response s v.serving.ready,
                refused,
              )
              (record {
                serving = record {
                  ready = ground (arith, v.serving.ready);
                  coherent = v.serving.coherent;
                };
                sound = refused_community-IsSound e reliable.fresh s.db v.sound x;
              })
      ]

  with_bans-IsServedSoundly :
      (t : Table BannedUser)
      → t.exists ≡ s.db.banned_users.exists
      → HasSoundBans s.db.users.rows t.rows s.db.banned_ips.rows
      → IsServedSoundly (record s { db = with_bans t s.db })
  with_bans-IsServedSoundly t there kept = record {
    serving = record {
      ready = rebanned-IsReady t s.db.banned_ips s.db v.serving.ready there refl;
      coherent = v.serving.coherent;
    };
    sound = rebanned-IsSound t s.db.banned_ips s.db v.sound kept;
  }

  pub ban_user_rpc-IsServedSoundly :
      (now : ℕ) (cmeta : Metadata) (request : BanUserRequest) (response : GenericResponse)
      → IsServedSoundly (ban_user_rpc e now cmeta request response s).2
  ban_user_rpc-IsServedSoundly now cmeta request response =
      elim (Bool-cases (has_credentials cmeta)) [
        | inr none_there ↦ rw (missing e now cmeta request response s v.serving.ready none_there) v
        | inl here ↦
            elim (ban_user_rpc_guarded e now cmeta request response s v.serving.ready
              v.sound.user_names) [
                | inr (code, same) ↦ rw same v
                | inl allowed ↦
                    let effect =
                      ban_user-IsBansOnly e now request.uname request.days s.db v.serving.ready in
                    rw
                      (
                        ban_user_rpc_allowed e now cmeta request response s v.serving.ready here
                            allowed,
                        effect.same,
                      )
                      (with_bans-IsServedSoundly effect.bans effect.there
                        (effect.sound v.sound.bans))
              ]
      ]
