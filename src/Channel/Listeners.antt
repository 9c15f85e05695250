-- ===== src/Channel/Listeners.antt =====
-- `waitMessage` (SynchronizedChannel.cpp) in the loop of `ListenWrongthinkMessagesImpl`
-- (WrongthinkServiceImpl.cpp): one listener among any number of senders. Other listeners only read
-- the channel, and do not show.
use mathlib.Core.List.{map-append}
use wrongthink.Base.{
  ℕ, zero, suc, ◌≤◌, ◌<◌, List, [], ◌∷◌, ◌++◌, map, length, length-append, get_elem?,
  get_elem?-length, get_or, ◌≡◌, refl, ap, ◌∙◌, sym, arith,
}
use wrongthink.Proto.{WrongthinkMessage, no_message}
use wrongthink.Channel.{SynchronizedChannel, append_message}

-- Where the listener is: outside `waitMessage`; in `channelCondition_.wait`, with the mutex
-- released; or notified, and about to take the mutex again.
pub data Phase : Type 0 where
  outside waiting notified : Phase

-- `written` is what the listener wrote to its client.
pub record Listening : Type 0 where
  pub channel : SynchronizedChannel
  pub phase : Phase
  pub written : List WrongthinkMessage

-- notify_all
abbrev pub notify_all : Phase → Phase
notify_all outside = outside
notify_all waiting = notified
notify_all notified = notified

-- A sender calls `appendMessage`.
abbrev pub sent : WrongthinkMessage → Listening → Listening
sent msg l = record l { channel = append_message msg l.channel; phase = notify_all l.phase }

-- `waitMessage` returns, and the listener writes what it returned.
abbrev pub returned : Listening → Listening
returned l = record l { phase = outside; written = l.written ++ l.channel.last_message ∷ [] }

-- The steps that the mutex and the condition variable allow. The wait has no predicate, and may end
-- without a notification.
pub data Step (l : Listening) : Listening → Type 0 where
  sends : (msg : WrongthinkMessage) → Step l (sent msg l)
  starts_waiting : l.phase ≡ outside → Step l (record l { phase = waiting })
  wakes : l.phase ≡ waiting → Step l (record l { phase = notified })
  returns : l.phase ≡ notified → Step l (returned l)

pub data Run : Listening → Listening → Type 0 where
  done : {l : Listening} → Run l l
  step : {l m n : Listening} → Step l m → Run m n → Run l n

-- The loop begins on a channel whose last message is the last that was appended.
abbrev pub listening : SynchronizedChannel → Listening
listening c = record { channel = c; phase = outside; written = [] }

-- The last message after `i` messages were appended; an empty one before the first.
abbrev pub message_at : List WrongthinkMessage → ℕ → WrongthinkMessage
message_at h zero = no_message
message_at h (suc i) = get_or (get_elem? h i) no_message

-- Numbers from `lo` to `hi` that never fall.
abbrev pub Climbs : ℕ → List ℕ → ℕ → Type 0
Climbs lo [] hi = lo ≤ hi
Climbs lo (i ∷ is) hi = (lo ≤ i) × Climbs i is hi

-- What the listener wrote are the channel's messages at times that never go back, where a message
-- may be left out, and one may be written twice.
pub record IsHeard (l : Listening) : Type 0 where
  pub times : List ℕ
  pub climbs : Climbs 0 times (length l.channel.msg_vector)
  pub heard : l.written ≡ map (message_at l.channel.msg_vector) times
  pub latest :
      l.channel.last_message ≡ message_at l.channel.msg_vector (length l.channel.msg_vector)

Climbs-snoc : (lo : ℕ) (is : List ℕ) (hi : ℕ) → Climbs lo is hi → Climbs lo (is ++ hi ∷ []) hi
Climbs-snoc lo [] hi h = (h, omega arith)
Climbs-snoc lo (i ∷ is) hi h = (h.0, Climbs-snoc i is hi h.1)

Climbs-mono : (lo : ℕ) (is : List ℕ) (hi hi' : ℕ) → hi ≤ hi' → Climbs lo is hi → Climbs lo is hi'
Climbs-mono lo [] hi hi' k h = omega arith
Climbs-mono lo (i ∷ is) hi hi' k h = (h.0, Climbs-mono i is hi hi' k h.1)

Climbs-bound : (lo : ℕ) (is : List ℕ) (hi : ℕ) → Climbs lo is hi → lo ≤ hi
Climbs-bound lo [] hi h = h
Climbs-bound lo (i ∷ is) hi h = omega (arith, h.0, Climbs-bound i is hi h.1)

get_elem?-before :
    (h : List WrongthinkMessage) (m : WrongthinkMessage) (i : ℕ)
    → i < length h
    → get_elem? (h ++ m ∷ []) i ≡ get_elem? h i
get_elem?-before [] m i k = absurd (omega arith)
get_elem?-before (x ∷ h) m zero k = refl
get_elem?-before (x ∷ h) m (suc i) k = get_elem?-before h m i (omega arith)

message_at-before :
    (h : List WrongthinkMessage) (m : WrongthinkMessage) (i : ℕ)
    → i ≤ length h
    → message_at (h ++ m ∷ []) i ≡ message_at h i
message_at-before h m zero k = refl
message_at-before h m (suc i) k =
    ap (λ o. get_or o no_message) (get_elem?-before h m i (omega arith))

map-message_at :
    (h : List WrongthinkMessage) (m : WrongthinkMessage) (lo : ℕ) (is : List ℕ)
    → Climbs lo is (length h)
    → map (message_at (h ++ m ∷ [])) is ≡ map (message_at h) is
map-message_at h m lo [] c = refl
map-message_at h m lo (i ∷ is) c =
    cc (message_at-before h m i (Climbs-bound i is (length h) c.1), map-message_at h m i is c.1)

message_at-last :
    (h : List WrongthinkMessage) (m : WrongthinkMessage)
    → message_at (h ++ m ∷ []) (length (h ++ m ∷ [])) ≡ m
message_at-last h m =
    let after : length (h ++ m ∷ []) ≡ suc (length h) = omega (arith, length-append h (m ∷ [])) in
    rw after (ap (λ o. get_or o no_message) (get_elem?-length h (m ∷ []) (length h) refl))

sent-IsHeard : (msg : WrongthinkMessage) (l : Listening) → IsHeard l → IsHeard (sent msg l)
unfolding append_message
sent-IsHeard msg l v = record {
  times = v.times;
  climbs =
      Climbs-mono 0 v.times (length l.channel.msg_vector)
        (length (l.channel.msg_vector ++ msg ∷ []))
        (omega (arith, length-append l.channel.msg_vector (msg ∷ []))) v.climbs;
  heard = v.heard ∙ sym (map-message_at l.channel.msg_vector msg 0 v.times v.climbs);
  latest = sym (message_at-last l.channel.msg_vector msg);
}

returned-IsHeard : (l : Listening) → IsHeard l → IsHeard (returned l)
returned-IsHeard l v = record {
  times = v.times ++ length l.channel.msg_vector ∷ [];
  climbs = Climbs-snoc 0 v.times (length l.channel.msg_vector) v.climbs;
  heard =
      rw (map-append (message_at l.channel.msg_vector) v.times (length l.channel.msg_vector ∷ []))
        (cc (v.heard, v.latest));
  latest = v.latest;
}

Step-IsHeard : {l m : Listening} → Step l m → IsHeard l → IsHeard m
Step-IsHeard {l} (sends msg) v = sent-IsHeard msg l v
Step-IsHeard (starts_waiting h) v = record {
  times = v.times;
  climbs = v.climbs;
  heard = v.heard;
  latest = v.latest;
}
Step-IsHeard (wakes h) v = record {
  times = v.times;
  climbs = v.climbs;
  heard = v.heard;
  latest = v.latest;
}
Step-IsHeard {l} (returns h) v = returned-IsHeard l v

Run-IsHeard : {l m : Listening} → Run l m → IsHeard l → IsHeard m
Run-IsHeard done v = v
Run-IsHeard (step s r) v = Run-IsHeard r (Step-IsHeard s v)

-- Whatever the senders and the scheduler do, a listener that began on a new channel has written
-- messages of the channel, or the empty message before the first, in the order in which they were
-- sent.
pub listening-IsHeard :
    (c : SynchronizedChannel) (l : Listening)
    → c.msg_vector ≡ []
    → c.last_message ≡ no_message
    → Run (listening c) l
    → IsHeard l
listening-IsHeard c l h k r =
    Run-IsHeard r
      (record { times = []; climbs = omega arith; heard = refl; latest = rw (h, k) refl })

-- The channel with more messages.
unfoldable pub append_all : List WrongthinkMessage → SynchronizedChannel → SynchronizedChannel
append_all [] c = c
append_all (m ∷ ms) c = append_all ms (append_message m c)

-- The listener after each of the messages was sent and written.
abbrev pub told : List WrongthinkMessage → Listening → Listening
told ms l = record l {
  channel = append_all ms l.channel;
  phase = outside;
  written = l.written ++ ms;
}

-- From any state in which the listener waits, and for any two messages, there is a run in which
-- both are sent and the listener, then outside again, has written the second only: a message is
-- lost if another is sent before the listener, notified of it, takes the mutex.
pub overtaken-Run :
    (a b : WrongthinkMessage) (l : Listening)
    → l.phase ≡ waiting
    → Run l (record {
      channel = append_all (a ∷ b ∷ []) l.channel;
      phase = outside;
      written = l.written ++ b ∷ [];
    })
unfolding append_all append_message
overtaken-Run a b l h = step (sends a) (step (sends b) (step (returns (rw h refl)) done))
