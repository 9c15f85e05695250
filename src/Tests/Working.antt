-- ===== src/Tests/Working.antt =====
-- The server at work on several calls at once, from new tables.
use wrongthink.Base.{
  ℕ, arith, true, false, List, [], ◌∷◌, ◌++◌, ◌==◌, ◌≡◌, refl, inl, if◌then◌else◌,
}
use wrongthink.Base.Int.{pos}
use wrongthink.Main.{served, main, is_argument}
use wrongthink.Auth.{process}
use wrongthink.Interceptor.{find_field}
use wrongthink.Server.{Incoming}
use wrongthink.Server.Threads.{run_threads, called}
use wrongthink.Server.Threads.Interleaved.{IsOrderly}
use wrongthink.Server.Threads.Program.{program-IsOrderly}
use wrongthink.Server.Threads.Ending.{run_threads-has_ended}
use wrongthink.Server.Threads.Ending.Remaining.{
  remaining, has_ended, handler_left, sending_left, checks_left, looking_left, batches_left,
  call_left,
}
use wrongthink.Concurrent.Ending.{turns_of}
use wrongthink.Service.Soundness.Runs.{
  Request, creates_user, creates_community, creates_channel, sends_web, bans_user, listens,
}
use wrongthink.Tests.Engines.{postgres}
use wrongthink.Tests.Samples.{chat_db, hi, alice_login}
use wrongthink.Tests.Running.{postgres-IsReliable, call_of}

-- Thread 0 creates alice, 1 creates bob, 2 a community, 3 a channel, 4 listens, 5 sends, and the
-- others ban bob.
abbrev request_of : ℕ → Request
request_of i =
    if i == 0
    then creates_user (record { uname = "alice"; password = "secret"; admin = false })
    else if i == 1
    then creates_user (record { uname = "bob"; password = "hunter2"; admin = false })
    else if i == 2
    then creates_community 0 (record { name = "main"; adminid = 1; public = true })
    else if i == 3
    then creates_channel
        (record { name = "general"; communityid = 1; adminid = 1; anonymous = false })
    else if i == 4
    then listens 1
    else if i == 5
    then sends_web (λ n. 1600000000) hi
    else bans_user 1600000000 alice_login (record { uname = "bob"; days = pos 1 })

abbrev calls : ℕ → Incoming
calls i = call_of (request_of i)

-- Each of the threads in turn, as often as it is written.
abbrev round : List (ℕ × ℕ)
round =
    (0, 1600000000)
    ∷ (1, 1600000001)
    ∷ (2, 1600000002)
    ∷ (3, 1600000003)
    ∷ (4, 1600000004)
    ∷ (5, 1600000005)
    ∷ (6, 1600000006)
    ∷ (7, 1600000007)
    ∷ []

abbrev schedule : List (ℕ × ℕ)
schedule = round ++ round ++ round ++ round ++ round ++ round ++ round ++ round

program-IsOrderly_example :
    ((main postgres ("wrongthink" ∷ "clear" ∷ []) chat_db).0 ≡ served)
    × IsOrderly (
        run_threads postgres schedule
          (called (main postgres ("wrongthink" ∷ "clear" ∷ []) chat_db).1 calls))
unfolding is_argument
program-IsOrderly_example =
    program-IsOrderly postgres postgres-IsReliable ("wrongthink" ∷ "clear" ∷ []) calls schedule
      chat_db refl (inl refl)

-- With its checks, the message of thread 5 takes at most eleven of the sixteen rounds.
run_threads-has_ended_example :
    has_ended ((run_threads postgres (schedule ++ schedule) (called chat_db calls)).thread 5) ≡ true
unfolding remaining handler_left sending_left checks_left looking_left batches_left call_left
    turns_of process find_field
run_threads-has_ended_example =
    run_threads-has_ended postgres (schedule ++ schedule) (called chat_db calls) 5 (omega (arith))
