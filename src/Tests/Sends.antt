-- ===== src/Tests/Sends.antt =====
-- The properties of interleaved sends, at the sample chat.
use wrongthink.Base.{ℕ, List, [], ◌∷◌, ◌++◌, any, ◌≡◌, refl, arith, ◌==◌, Bool-cases, inl, inr}
use wrongthink.Concurrent.{two}
use wrongthink.Proto.{WrongthinkMessage, ok_status}
use wrongthink.Channel.{of_name}
use wrongthink.Db.Messages.{message_violation}
use wrongthink.Service.{Service}
use wrongthink.Service.Cache.{history}
use wrongthink.Service.Messaging.{post}
use wrongthink.Service.Messaging.Threads.{Sends, counting, answered, run_sends, step_send}
use wrongthink.Service.Messaging.Threads.Interleaved.{IsOrderly, run_sends-IsOrderly}
use wrongthink.Service.Messaging.Threads.Backed.{posts}
use wrongthink.Service.Messaging.Threads.Races.{overtaking, two-run_sends}
use wrongthink.Channel.Listeners.{outside, waiting, listening, Run, IsHeard}
use wrongthink.Service.{live_channel}
use wrongthink.Service.Messaging.Threads.{advance}
use wrongthink.Service.Messaging.Watched.{
  Watched, WatchRun, woken, the_channel, seen_by, goes, over, listener_waits, sender_runs,
  listener_writes, watched-IsHeard,
}
use wrongthink.Service.Soundness.Handlers.{IsServedSoundly}
use wrongthink.Tests.Engines.{postgres, postgres-IssuesFreshIds}
use wrongthink.Tests.Samples.{chat, chat-IsReady, chat-IsServing, hi, nobody}

abbrev bye : WrongthinkMessage
bye = record hi { text = "bye" }

chat-IsServedSoundly : IsServedSoundly chat
unfolding any
chat-IsServedSoundly = record {
  serving = chat-IsServing;
  sound = record {
    users = record {
      rising = (omega arith, (omega arith, tt));
      below = (omega arith, (omega arith, tt));
      started = omega arith;
    };
    communities = record {
      rising = (omega arith, tt);
      below = (omega arith, tt);
      started = omega arith;
    };
    channels = record {
      rising = (omega arith, tt);
      below = (omega arith, tt);
      started = omega arith;
    };
    messages = record {
      rising = (omega arith, tt);
      below = (omega arith, tt);
      started = omega arith;
    };
    user_names = (refl, (refl, tt));
    community_names = (refl, tt);
    channel_names = (refl, tt);
    community_admins = (refl, tt);
    channel_admins = (refl, tt);
    channel_communities = (refl, tt);
    message_authors = (refl, tt);
    message_channels = (refl, tt);
    bans = record { once = tt; accounts = tt; addresses = tt };
  };
}

abbrev two_sends : Sends
two_sends = record { shared = chat; thread = two (counting hi) (counting nobody) }

two_sends-IsOrderly : IsOrderly two_sends
two_sends-IsOrderly = record {
  good = chat-IsServedSoundly;
  backed = λ i. elim (Bool-cases (i == 0)) [ inl first ↦ rw first tt | inr second ↦ rw second tt ];
}

-- Both calls find the channel missing from the map, and both make it live.
abbrev schedule : List (ℕ × ℕ)
schedule =
    (0, 1600000000)
    ∷ (1, 1600000000)
    ∷ (1, 1600000001)
    ∷ (0, 1600000001)
    ∷ (0, 1600000002)
    ∷ (1, 1600000002)
    ∷ (1, 1600000003)
    ∷ (0, 1600000003)
    ∷ (1, 1600000004)
    ∷ (0, 1600000004)
    ∷ []

run_sends-IsOrderly_example : IsOrderly (run_sends postgres schedule two_sends)
run_sends-IsOrderly_example =
    run_sends-IsOrderly postgres schedule two_sends
      (record { null = refl; fresh = postgres-IssuesFreshIds; enforced = refl }) two_sends-IsOrderly

abbrev live_chat : Service
live_chat = record chat { channel_map = (1, of_name 1 "general") ∷ [] }

abbrev crossing : Sends
crossing =
    run_sends postgres (overtaking 1600000000)
      (record { shared = live_chat; thread = two (counting hi) (counting bye) })

two-run_sends_example :
    (crossing.thread 0 ≡ answered hi ok_status)
    × (crossing.thread 1 ≡ answered bye ok_status)
    × (history 1 crossing.shared.channel_map ≡ history 1 live_chat.channel_map ++ hi ∷ bye ∷ [])
    × (posts crossing.shared ≡ posts live_chat ++ post bye ∷ post hi ∷ [])
unfolding any message_violation
two-run_sends_example =
    two-run_sends postgres 1600000000 hi bye live_chat chat-IsReady refl refl refl refl

abbrev before_all : Watched
before_all = record {
  sends = record { shared = live_chat; thread = two (counting hi) (counting bye) };
  phase = outside;
  written = [];
}

-- A listener that waits for messages.
abbrev listening_on : Watched
listening_on = record before_all { phase = waiting }

abbrev first_runs : Watched → Watched
first_runs w = record {
  sends = step_send postgres 0 1600000000 w.sends;
  phase = woken 1 (w.sends.thread 0) w.phase;
  written = w.written;
}

-- The first call has handed over its message, and the listener writes it.
abbrev behind_first : Watched
behind_first =
    let w = first_runs (first_runs listening_on) in
    record w { phase = outside; written = w.written ++ (the_channel 1 w).last_message ∷ [] }

first_written : WatchRun postgres 1 before_all behind_first
unfolding any live_channel advance
first_written = goes {u = before_all} {v = listening_on} (listener_waits refl) (
    goes {v = first_runs listening_on} (sender_runs 0 1600000000) (
      goes {v = first_runs (first_runs listening_on)} (sender_runs 0 1600000000)
        (goes (listener_writes refl) over)))

watched-IsHeard_example :
    Run (listening (the_channel 1 before_all)) (seen_by 1 behind_first)
    × IsHeard (seen_by 1 behind_first)
unfolding live_channel
watched-IsHeard_example =
    watched-IsHeard postgres 1 {w = before_all} {v = behind_first} first_written
      (of_name 1 "general", refl) refl refl refl refl
