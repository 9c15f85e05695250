-- ===== src/Tests/Chats.antt =====
-- The properties of streams and of the abstract chat, at the sample states.
use wrongthink.Base.{[], ◌∷◌, ◌≡◌, refl, arith}
use wrongthink.Service.Messaging.{send_wrongthink_message, send_loop}
use wrongthink.Service.Messaging.Chat.{view, seen, deliver, send_stream-deliver}
use wrongthink.Service.Messaging.Streams.{reader_at, send_list, send_loop-eq-send_list}
use wrongthink.Tests.Engines.{postgres}
use wrongthink.Tests.Messaging.{clock}
use wrongthink.Tests.Samples.{chat, chat-IsServing, hi, nowhere, nobody}

send_stream-deliver_example :
    seen (send_wrongthink_message postgres clock (reader_at (hi ∷ nobody ∷ nowhere ∷ []) 0) chat)
    ≡ deliver postgres.enforces_references (hi ∷ nobody ∷ nowhere ∷ []) (view chat)
send_stream-deliver_example =
    send_stream-deliver postgres clock refl (hi ∷ nobody ∷ nowhere ∷ []) chat chat-IsServing

send_loop-eq-send_list_example :
    send_loop postgres clock 3 (reader_at (hi ∷ nowhere ∷ []) 1)
    ≡ send_list postgres clock 1 (nowhere ∷ [])
send_loop-eq-send_list_example =
    send_loop-eq-send_list postgres clock 3 1 (hi ∷ []) (nowhere ∷ []) refl (omega arith)
