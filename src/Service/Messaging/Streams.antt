-- ===== src/Service/Messaging/Streams.antt =====
-- Sending a stream of messages (`SendWrongthinkMessageImpl`, WrongthinkServiceImpl.cpp): the loop
-- against the list of messages, and what it leaves on each way out.
use mathlib.Core.List.{append_assoc}
use wrongthink.Base.{
  ℕ, zero, suc, ◌<◌, Bool, true, false, some, List, [], ◌∷◌, ◌++◌, ◌≡◌, refl, ap, arith, length,
  length-append, get_elem?-length, if◌then◌else◌,
}
use wrongthink.Action.{Action, Outcome, ok, thrown, pure, and_then}
use wrongthink.Proto.{WrongthinkMessage, Status, ok_status, invalid_status}
use wrongthink.Db.Engine.{Engine}
use wrongthink.Service.{Service, ReaderWrapper, read, caught}
use wrongthink.Service.Messaging.{
  send_one, send_round, send_loop, send_wrongthink_message, send_wrongthink_message_web,
}

-- A reader at a position of its list.
abbrev pub reader_at : List WrongthinkMessage → ℕ → ReaderWrapper WrongthinkMessage
reader_at l n = record { obj_list = l; pos = n }

-- The loop over the messages that are left, with no reader and no fuel.
unfoldable pub send_list : Engine → (ℕ → ℕ) → ℕ → List WrongthinkMessage → Action Service Status
send_list e clock n [] = pure ok_status
send_list e clock n (msg ∷ rest) =
    send_round e (clock n) (some msg) (send_list e clock (suc n) rest)

-- With fuel above the number of messages that are left, the loop over the reader is the loop over
-- those messages.
pub send_loop-eq-send_list :
    (e : Engine) (clock : ℕ → ℕ) (fuel n : ℕ) (done rest : List WrongthinkMessage)
    → n ≡ length done
    → length rest < fuel
    → send_loop e clock fuel (reader_at (done ++ rest) n) ≡ send_list e clock n rest
unfolding send_loop send_list read
send_loop-eq-send_list e clock zero n done rest h f = elim f [ ]
send_loop-eq-send_list e clock (suc fuel) n done [] h f = rw (get_elem?-length done [] n h) refl
send_loop-eq-send_list e clock (suc fuel) n done (msg ∷ rest) h f =
    rw (get_elem?-length done (msg ∷ rest) n h) (
      ap (send_round e (clock n) (some msg)) (
        rw (append_assoc done (msg ∷ []) rest) at (
          send_loop-eq-send_list e clock fuel (suc n) (done ++ msg ∷ []) rest
            (omega (arith, length-append done (msg ∷ []))) (omega arith))))

same_answer :
    (r : Outcome Bool) (s : Service)
    → caught (
        and_then (λ known. pure {S = Service} (if known then ok_status else invalid_status)) (r, s))
      ≡ caught (and_then (λ known. if known then pure ok_status else pure invalid_status) (r, s))
same_answer (ok true) s = refl
same_answer (ok false) s = refl
same_answer (thrown x) s = refl

-- Sending by `SendWrongthinkMessageWeb` is sending a stream of the one message, whatever the
-- outcome.
pub send_web-eq-stream :
    (e : Engine) (clock : ℕ → ℕ) (msg : WrongthinkMessage) (s : Service)
    → send_wrongthink_message_web e (clock 0) msg s
      ≡ send_wrongthink_message e clock (reader_at (msg ∷ []) 0) s
unfolding send_wrongthink_message_web send_wrongthink_message read
send_web-eq-stream e clock msg s =
    same_answer (send_one e (clock 0) msg s).0 (send_one e (clock 0) msg s).1
