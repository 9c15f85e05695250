-- ===== src/Channel/Wakeups.antt =====
-- Whether a listener among senders (Channel.Listeners) hears of the messages: the notifications of
-- `appendMessage` (SynchronizedChannel.cpp).
use mathlib.Core.List.{append_assoc, append-nil}
use wrongthink.Base.{
  ℕ, suc, ◌<◌, ◌⊎◌, inl, inr, List, [], ◌∷◌, length, length-append, ◌≡◌, refl, ap, sym, arith,
}
use wrongthink.Proto.{WrongthinkMessage}
use wrongthink.Channel.{append_message}
use wrongthink.Channel.Listeners.{
  outside, waiting, notified, Listening, notify_all, sent, returned, Step, sends, starts_waiting,
  wakes, returns, Run, done, step, append_all, told,
}

-- How many of the wakeups of a run are spurious.
unfoldable pub spurious : {l m : Listening} → Run l m → ℕ
spurious done = 0
spurious (step (sends msg) r) = spurious r
spurious (step (starts_waiting h) r) = spurious r
spurious (step (wakes h) r) = suc (spurious r)
spurious (step (returns h) r) = spurious r

-- A run in which each wakeup follows a notification.
abbrev PromptRun : Listening → Listening → Type 0
PromptRun l m = (r : Run l m) × (spurious r ≡ 0)

-- The listener waits, a message is sent, and it writes that message.
prompt_round :
    (msg : WrongthinkMessage) (l m : Listening)
    → l.phase ≡ outside
    → PromptRun (returned (sent msg (record l { phase = waiting }))) m
    → PromptRun l m
unfolding spurious
prompt_round msg l m h (r, prompt) =
    (step (starts_waiting h) (step (sends msg) (step (returns refl) r)), prompt)

-- A listener that waits again before each message is sent can write each of them, in order, without
-- any wakeup that no notification caused.
pub prompt-Run :
    (ms : List WrongthinkMessage) (l : Listening)
    → l.phase ≡ outside
    → (r : Run l (told ms l)) × (spurious r ≡ 0)
unfolding append_all append_message spurious
prompt-Run [] l h = rw (append-nil l.written, sym h) (done, refl)
prompt-Run (m ∷ ms) l h = prompt_round m l (told (m ∷ ms) l) h (
    rw (append_assoc l.written (m ∷ []) ms) at
      (prompt-Run ms (returned (sent m (record l { phase = waiting }))) refl))

-- Notified, and it has written nothing since; or it has written.
abbrev pub IsWoken : Listening → Listening → Type 0
IsWoken before l =
    ((l.phase ≡ notified) × (l.written ≡ before.written))
    ⊎ (length before.written < length l.written)

Step-IsWoken :
    (before : Listening) {l m : Listening} → Step l m → IsWoken before l → IsWoken before m
Step-IsWoken before {l} (sends msg) (inl (woken, same)) = inl (ap notify_all woken, same)
Step-IsWoken before {l} (sends msg) (inr more) = inr more
Step-IsWoken before (starts_waiting h) (inl (woken, same)) = absurd (ground (arith, h, woken))
Step-IsWoken before (starts_waiting h) (inr more) = inr more
Step-IsWoken before (wakes h) (inl (woken, same)) = inl (refl, same)
Step-IsWoken before (wakes h) (inr more) = inr more
Step-IsWoken before {l} (returns h) (inl (woken, same)) =
    inr (rw same (omega (arith, length-append before.written (l.channel.last_message ∷ []))))
Step-IsWoken before {l} (returns h) (inr more) =
    inr (omega (arith, length-append l.written (l.channel.last_message ∷ [])))

Run-IsWoken : (before : Listening) {l m : Listening} → Run l m → IsWoken before l → IsWoken before m
Run-IsWoken before done v = v
Run-IsWoken before (step s r) v = Run-IsWoken before r (Step-IsWoken before s v)

-- No wakeup is lost: whatever steps follow, a listener that waited when a message was sent is
-- notified, and so able to return, until it has written a message; it does not wait again before.
pub sent-IsWoken :
    (msg : WrongthinkMessage) (l m : Listening)
    → l.phase ≡ waiting
    → Run (sent msg l) m
    → IsWoken l m
sent-IsWoken msg l m h r = Run-IsWoken l r (inl (ap notify_all h, refl))
