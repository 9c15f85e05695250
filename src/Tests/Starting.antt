-- ===== src/Tests/Starting.antt =====
-- The properties of the start and of the interceptor, at the sample states.
use wrongthink.Base.{true, [], ◌∷◌, any, find?, ◌≡◌, refl}
use wrongthink.Action.{ok}
use wrongthink.Db.Tables.{Db}
use wrongthink.Db.Setup.{no_table}
use wrongthink.Db.Bans.Ips.{ip_answer}
use wrongthink.Interceptor.{Request, find_field, intercept}
use wrongthink.Interceptor.Banned.{
  metadata_received, message_received, incoming, ended, is_cancelled, has_returned,
  intercept-metadata, intercept-message,
}
use wrongthink.Main.{main, main_result, main-eq-main_result}
use wrongthink.Tests.Engines.{postgres}
use wrongthink.Tests.Samples.{chat_db, chat-IsReady, banned_db, banned-IsReady}

-- The chat after its messages were dropped by hand.
abbrev damaged : Db
damaged = record chat_db { message = no_table }

main-eq-main_result_example :
    main postgres ("wrongthink" ∷ "clear" ∷ []) damaged
    ≡ main_result ("wrongthink" ∷ "clear" ∷ []) damaged
main-eq-main_result_example = main-eq-main_result postgres ("wrongthink" ∷ "clear" ∷ []) damaged

-- A request to create an account for bob.
abbrev for_bob : Request
for_bob = record {
  defaults = ("uname", "") ∷ ("password", "") ∷ [];
  values = ("uname", "bob") ∷ ("password", "pw") ∷ [];
}

-- A call from an address that is banned.
intercept-metadata_example :
    ((intercept postgres 1600000000 1600000000 "ipv4:10.0.0.1" for_bob metadata_received
        (incoming banned_db)).0
      ≡ ended (ip_answer postgres 1600000000 "ipv4:10.0.0.1" banned_db))
    × ((intercept postgres 1600000000 1600000000 "ipv4:10.0.0.1" for_bob metadata_received
          (incoming banned_db)).1.cancelled
        ≡ is_cancelled (ip_answer postgres 1600000000 "ipv4:10.0.0.1" banned_db))
    × ((intercept postgres 1600000000 1600000000 "ipv4:10.0.0.1" for_bob metadata_received
          (incoming banned_db)).1.proceeded
        ≡ has_returned (ip_answer postgres 1600000000 "ipv4:10.0.0.1" banned_db))
intercept-metadata_example =
    intercept-metadata postgres 1600000000 1600000000 "ipv4:10.0.0.1" for_bob banned_db
      banned-IsReady

banned_cancelled : is_cancelled (ip_answer postgres 1600000000 "ipv4:10.0.0.1" banned_db) ≡ true
unfolding find?
banned_cancelled = refl

intercept-message_example :
    intercept postgres 1600000000 1600000000 "ipv4:10.0.0.1" for_bob message_received
      (incoming chat_db)
    ≡ (ok tt, record (incoming chat_db) { proceeded = true })
unfolding find_field any
intercept-message_example =
    intercept-message postgres 1600000000 1600000000 "ipv4:10.0.0.1" for_bob chat_db chat-IsReady
      refl refl
