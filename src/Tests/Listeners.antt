-- ===== src/Tests/Listeners.antt =====
-- The properties of listeners, on a new channel.
use wrongthink.Base.{[], ◌∷◌, refl, ◌≡◌}
use wrongthink.Channel.{SynchronizedChannel, of_name}
use wrongthink.Channel.Listeners.{
  Listening, waiting, outside, sent, sends, starts_waiting, Run, step, done, listening, IsHeard,
  listening-IsHeard, append_all, told, overtaken-Run,
}
use wrongthink.Channel.Wakeups.{spurious, prompt-Run, IsWoken, sent-IsWoken}
use wrongthink.Tests.Samples.{hi, nobody}

abbrev quiet : SynchronizedChannel
quiet = of_name 1 "general"

abbrev waiting_on_quiet : Listening
waiting_on_quiet = record (listening quiet) { phase = waiting }

overtaken : Run (listening quiet) (record {
  channel = append_all (hi ∷ nobody ∷ []) quiet;
  phase = outside;
  written = nobody ∷ [];
})
overtaken = step (starts_waiting refl) (overtaken-Run hi nobody waiting_on_quiet refl)

listening-IsHeard_example : IsHeard (record {
  channel = append_all (hi ∷ nobody ∷ []) quiet;
  phase = outside;
  written = nobody ∷ [];
})
listening-IsHeard_example = listening-IsHeard quiet _ refl refl overtaken

prompt-Run_example :
    (r : Run (listening quiet) (told (hi ∷ nobody ∷ []) (listening quiet))) × (spurious r ≡ 0)
prompt-Run_example = prompt-Run (hi ∷ nobody ∷ []) (listening quiet) refl

overtaken-Run_example : Run waiting_on_quiet (record {
  channel = append_all (hi ∷ nobody ∷ []) quiet;
  phase = outside;
  written = nobody ∷ [];
})
overtaken-Run_example = overtaken-Run hi nobody waiting_on_quiet refl

-- Two messages are sent to a listener that waits.
sent-IsWoken_example : IsWoken waiting_on_quiet (sent nobody (sent hi waiting_on_quiet))
sent-IsWoken_example =
    sent-IsWoken hi waiting_on_quiet (sent nobody (sent hi waiting_on_quiet)) refl
      (step (sends nobody) done)
