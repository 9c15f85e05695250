-- ===== src/Service/Messaging/Listening.antt =====
-- `ListenWrongthinkMessagesImpl` up to its loop (WrongthinkServiceImpl.cpp).
use wrongthink.Base.{ℕ, ◌≡◌, refl, ◌∙◌, Bool-cases, inl, inr}
use wrongthink.Action.{ok}
use wrongthink.Db.Engine.{Engine, i_null}
use wrongthink.Service.{Service, update_channel}
use wrongthink.Service.Cache.{
  channel_exists, IsServing, IsChecked, checked_map, check_for_channel_exact, check_absent, history,
  update_channel-IsCoherent, history-update_same,
}
use wrongthink.Service.Messaging.{listen_start}

-- The service on which a listener of the channel starts to wait.
abbrev pub joined : Engine → ℕ → Service → Service
joined e id s = record s { channel_map = update_channel id (λ c. c) (checked_map e id s) }

module _ (e : Engine) (id : ℕ) (s : Service) (null : e.missing_row ≡ i_null) (v : IsServing s) where
  -- On a complete schema, with a coherent map and where a row that was not found is null, a
  -- listener is let in exactly if its channel is in the table. It does not change what the channels
  -- hold nor the database, and the map stays one of channels that are in the table.
  pub listen_start_lem :
      ((listen_start e id s).0 ≡ ok (channel_exists id s.db))
      × ((j : ℕ) → history j (listen_start e id s).1.channel_map ≡ history j s.channel_map)
      × ((listen_start e id s).1.db ≡ s.db)
      × IsServing (listen_start e id s).1
  unfolding listen_start
  listen_start_lem = elim (Bool-cases (channel_exists id s.db)) [
    | inr absent ↦ rw (check_absent e id s null v absent, absent) (refl, λ j. refl, refl, v)
    | inl there ↦
        let checks : IsChecked e id s = check_for_channel_exact e id s null v in
        rw (checks.answer, there)
          (
            refl,
            λ j. history-update_same id j (checked_map e id s) ∙ checks.same j,
            refl,
            record {
              ready = v.ready;
              coherent =
                  update_channel-IsCoherent id (λ c. c) s.db (checked_map e id s) there
                    checks.coherent;
            },
          )
  ]
