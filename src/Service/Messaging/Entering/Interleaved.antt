-- ===== src/Service/Messaging/Entering/Interleaved.antt =====
-- What a step of `ListenWrongthinkMessages` before its loop keeps (WrongthinkServiceImpl.cpp), while
-- other calls run.
use mathlib.Core.List.{append-nil}
use wrongthink.Base.{
  Grown, not_grown, ℕ, String, true, [], find?-any-false, find?-any-true, ◌≡◌, refl, sym, ◌∙◌,
  All-append, Bool-cases, inl, inr,
}
use wrongthink.Channel.{of_name}
use wrongthink.Db.Engine.{Engine}
use wrongthink.Db.Channels.{has_channel_id}
use wrongthink.Db.Channels.Listing.{get_channel_row_ready}
use wrongthink.Service.{Service, ChannelMap, is_live, emplace}
use wrongthink.Service.Cache.{
  channel_exists, IsServing, live_exists, history, history-emplace, history-update_same,
  update_channel-IsCoherent,
}
use wrongthink.Service.Soundness.{BanLaw}
use wrongthink.Service.Soundness.Handlers.{IsServedWith, IsReliable}
use wrongthink.Service.Messaging.Threads.Backed.{IsLater, still_there}
use wrongthink.Service.Messaging.Entering.{
  Entering, counting, fetching, emplacing, joining, listening, refused, failed, advance,
}

-- A call that has found its channel, or waits for its messages: the channel is in the table.
abbrev pub IsBacked : Service → Entering → Type 0
IsBacked s (emplacing id name) = channel_exists id s.db ≡ true
IsBacked s (joining id) = channel_exists id s.db ≡ true
IsBacked s (listening id) = channel_exists id s.db ≡ true
IsBacked s (counting id) = Unit {0}
IsBacked s (fetching id) = Unit {0}
IsBacked s (refused id) = Unit {0}
IsBacked s (failed x) = Unit {0}

pub IsBacked-later : (s t : Service) → IsLater s t → (p : Entering) → IsBacked s p → IsBacked t p
IsBacked-later s t l (emplacing id name) h = still_there s t l id h
IsBacked-later s t l (joining id) h = still_there s t l id h
IsBacked-later s t l (listening id) h = still_there s t l id h
IsBacked-later s t l (counting id) h = tt
IsBacked-later s t l (fetching id) h = tt
IsBacked-later s t l (refused id) h = tt
IsBacked-later s t l (failed x) h = tt

-- The map of live channels does not matter.
pub IsBacked-same :
    (s : Service) (m : ChannelMap) (p : Entering)
    → IsBacked s p
    → IsBacked (record s { channel_map = m }) p
IsBacked-same s m (emplacing id name) h = h
IsBacked-same s m (joining id) h = h
IsBacked-same s m (listening id) h = h
IsBacked-same s m (counting id) h = tt
IsBacked-same s m (fetching id) h = tt
IsBacked-same s m (refused id) h = tt
IsBacked-same s m (failed x) h = tt

-- The step of a call changes the map of live channels at most.
pub record IsEntered (Bans : BanLaw) (s : Service) (r : Entering × Service) : Type 0 where
  pub map : ChannelMap
  pub same : r.1 ≡ record s { channel_map = map }
  pub served : IsServedWith Bans (record s { channel_map = map })
  pub backed : IsBacked s r.0
  pub handed : (j : ℕ) → Grown (history j s.channel_map) (history j map)

module _ {Bans : BanLaw} (e : Engine) (reliable : IsReliable e) (s : Service)
    (v : IsServedWith Bans s) where
  same_service : (p : Entering) → IsBacked s p → IsEntered Bans s (p, s)
  same_service p backed = record {
    map = s.channel_map;
    same = refl;
    served = v;
    backed = backed;
    handed = λ j. not_grown _;
  }

  count_step : (id : ℕ) → IsEntered Bans s (advance e (counting id) s)
  unfolding advance
  count_step id = elim (Bool-cases (is_live id s.channel_map)) [
    | inl live ↦
        rw live
          (same_service (joining id) (live_exists s.db id s.channel_map v.serving.coherent live))
    | inr cold ↦ rw cold (same_service (fetching id) tt)
  ]

  fetch_step : (id : ℕ) → IsEntered Bans s (advance e (fetching id) s)
  unfolding advance
  fetch_step id = elim (Bool-cases (channel_exists id s.db)) [
    | inl there ↦
        let (ch, found, hit) = find?-any-true (has_channel_id id) s.db.channels.rows there in
        rw (get_channel_row_ready s.db v.serving.ready e id, found)
          (same_service (emplacing id ch.name) there)
    | inr absent ↦
        rw
          (
            get_channel_row_ready s.db v.serving.ready e id,
            find?-any-false (has_channel_id id) s.db.channels.rows absent,
            reliable.null,
          )
          (same_service (refused id) tt)
  ]

  -- A step that makes an entry in the map, or finds one.
  new_map :
      (p : Entering) (m : ChannelMap)
      → IsServing (record s { channel_map = m })
      → ((j : ℕ) → history j m ≡ history j s.channel_map)
      → IsBacked s p
      → IsEntered Bans s (p, record s { channel_map = m })
  new_map p m serving same backed = record {
    map = m;
    same = refl;
    served = record { serving = serving; sound = v.sound };
    backed = backed;
    handed = λ j. ([], same j ∙ sym (append-nil _));
  }

  emplace_step :
      (id : ℕ) (name : String)
      → channel_exists id s.db ≡ true
      → IsEntered Bans s (advance e (emplacing id name) s)
  unfolding advance
  emplace_step id name there = elim (Bool-cases (is_live id s.channel_map)) [
    | inl live ↦ rw live (same_service (joining id) there)
    | inr cold ↦ rw cold (
        new_map (joining id) (emplace id (of_name id name) s.channel_map)
          (record {
            ready = v.serving.ready;
            coherent = All-append _ s.channel_map _ v.serving.coherent (there, tt);
          })
          (λ j. history-emplace id j name s.channel_map) there)
  ]

  join_step : (id : ℕ) → channel_exists id s.db ≡ true → IsEntered Bans s (advance e (joining id) s)
  unfolding advance
  join_step id there =
      new_map (listening id) _
        (record {
          ready = v.serving.ready;
          coherent =
              update_channel-IsCoherent id (λ c. c) s.db s.channel_map there v.serving.coherent;
        })
        (λ j. history-update_same id j s.channel_map) there

  pub advance-IsEntered : (p : Entering) → IsBacked s p → IsEntered Bans s (advance e p s)
  unfolding advance
  advance-IsEntered (counting id) h = count_step id
  advance-IsEntered (fetching id) h = fetch_step id
  advance-IsEntered (emplacing id name) h = emplace_step id name h
  advance-IsEntered (joining id) h = join_step id h
  advance-IsEntered (listening id) h = same_service (listening id) h
  advance-IsEntered (refused id) h = same_service (refused id) h
  advance-IsEntered (failed x) h = same_service (failed x) h
