-- ===== src/Tests/Threads.antt =====
-- The properties of interleaved calls of `createUser`, on new tables.
use wrongthink.Base.{true, false, [], ◌∷◌, ◌≡◌, refl, any, ◌==◌, Bool-cases, inl, inr}
use wrongthink.Concurrent.{two}
use wrongthink.Db.Tables.{next_id}
use wrongthink.Db.Setup.Cleared.{empty_db}
use wrongthink.Db.Sql.Schema.{IsReady}
use wrongthink.Db.Users.{user_violation}
use wrongthink.Db.Users.Accounts.{new_user, with_user}
use wrongthink.Db.Users.Threads.{Creating, counting, answered, Calls, run_calls}
use wrongthink.Db.Users.Threads.Interleaved.{IsConsistent, run_calls-IsConsistent}
use wrongthink.Db.Users.Threads.Races.{in_turn, two-run_calls}
use wrongthink.Tests.Engines.{postgres}

empty-IsReady : IsReady empty_db
empty-IsReady = record {
  has_users = refl;
  has_banned_users = refl;
  has_banned_ips = refl;
  has_communities = refl;
  has_channels = refl;
  has_message = refl;
  has_control_message = refl;
}

abbrev for_alice : Creating
for_alice = counting "alice" "secret" false

abbrev for_bob : Creating
for_bob = counting "bob" "hunter2" false

abbrev two_calls : Calls
two_calls = record { shared = empty_db; thread = two for_alice for_bob }

two_calls-IsConsistent : IsConsistent two_calls
two_calls-IsConsistent = record {
  good = record { ready = empty-IsReady; administered = refl };
  backed = λ i. elim (Bool-cases (i == 0)) [ inl first ↦ rw first tt | inr second ↦ rw second tt ];
}

run_calls-IsConsistent_example :
    IsConsistent (run_calls postgres (0 ∷ 1 ∷ 1 ∷ 0 ∷ 0 ∷ 1 ∷ []) two_calls)
run_calls-IsConsistent_example =
    run_calls-IsConsistent postgres (0 ∷ 1 ∷ 1 ∷ 0 ∷ 0 ∷ 1 ∷ []) two_calls two_calls-IsConsistent

two-run_calls_example :
    ((run_calls postgres in_turn two_calls).thread 0
      ≡ answered "alice" (next_id postgres (λ u. u.user_id) empty_db.users) true)
    × ((run_calls postgres in_turn two_calls).thread 1
        ≡ answered "bob"
            (next_id postgres
              (λ u. u.user_id)
              (with_user postgres "alice" "secret" true empty_db).users)
            true)
    × ((run_calls postgres in_turn two_calls).shared.users.rows
        ≡ new_user "alice" "secret" true (next_id postgres (λ u. u.user_id) empty_db.users)
          ∷ new_user "bob" "hunter2" true (
              next_id postgres
                (λ u. u.user_id)
                (with_user postgres "alice" "secret" true empty_db).users)
          ∷ [])
unfolding any user_violation
two-run_calls_example =
    two-run_calls postgres "alice" "secret" "bob" "hunter2" empty_db empty-IsReady refl refl refl
      refl
