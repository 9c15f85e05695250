-- ===== src/Tests/Bans.antt =====
-- The properties of bans, at the sample states.
use wrongthink.Base.{
  ℕ, String, ◌*◌, ◌^◌, ◌-◌, leb, if◌then◌else◌, false, some, some_injective, sym, [], ◌∷◌, any,
  find?, ◌≡◌, refl, arith, ◌==◌, Bool-cases, inl, inr,
}
use wrongthink.Base.Int.{ℤ, pos, negsuc, ◌+ℤ◌}
use wrongthink.Action.{ok, thrown, undefined_column}
use wrongthink.Db.Tables.{User}
use wrongthink.Db.Users.{named}
use wrongthink.Db.Bans.{ban_offset, ban_user, is_ip_banned, is_user_banned, ip_violation}
use wrongthink.Db.Bans.Offset.{ban_offset_lem}
use wrongthink.Db.Bans.Banning.{IsBannedUntil, ban_user-IsBannedUntil}
use wrongthink.Concurrent.{two}
use wrongthink.Db.Bans.Threads.{Bans, finding, banned, run_bans, in_turn, two-run_bans}
use wrongthink.Db.Bans.Banning.{bans_of}
use wrongthink.Db.Bans.Ips.{IsIpChecked, ip_answer, is_ip_banned-IsIpChecked}
use wrongthink.Db.Bans.Users.{IsBarred, is_user_banned_expired, is_ip_banned-is_user_banned}
use wrongthink.Db.Bans.Threads.Interleaved.{IsOrderly, run_bans-IsOrderly}
use wrongthink.Tests.Engines.{postgres, sqlite}
use wrongthink.Tests.Samples.{chat_db, chat-IsReady, banned_db, banned-IsReady, alice, bob}

ban_offset_lem_example :
    ban_offset (pos 25)
    ≡ (if leb 25 24 then pos (25 * 86400000) else negsuc (2 ^ 32 - 25 * 86400000 - 1))
ban_offset_lem_example = ban_offset_lem 25 (omega arith)

ban_user-IsBannedUntil_example :
    ((ban_user sqlite 1600000000 "bob" (pos 1) chat_db).0 ≡ ok tt)
    × IsBannedUntil 2
        (pos 1600000000 +ℤ ban_offset (pos 1))
        chat_db
        (ban_user sqlite 1600000000 "bob" (pos 1) chat_db).1
unfolding find?
ban_user-IsBannedUntil_example =
    ban_user-IsBannedUntil sqlite 1600000000 "bob" (pos 1) chat_db bob
      (pos 1600000000 +ℤ ban_offset (pos 1)) chat-IsReady refl refl

is_ip_banned-IsIpChecked_example :
    IsIpChecked "ipv4:10.0.0.1"
      (ip_answer postgres 1800000000 "ipv4:10.0.0.1" banned_db)
      banned_db
      (is_ip_banned postgres 1800000000 "ipv4:10.0.0.1" banned_db)
is_ip_banned-IsIpChecked_example =
    is_ip_banned-IsIpChecked postgres 1800000000 "ipv4:10.0.0.1" banned_db banned-IsReady

is_user_banned_expired_example :
    is_user_banned postgres 1800000000 1800000000 "bob" "ipv4:10.0.0.2" banned_db
    ≡ (thrown undefined_column, banned_db)
unfolding find? any
is_user_banned_expired_example =
    is_user_banned_expired postgres 1800000000 1800000000 "bob" "ipv4:10.0.0.2" banned_db
      banned-IsReady (record { entry_id = 1; user_id = 2; expire = pos 1700000000 })
      (pos 1700000000) refl refl refl

is_ip_banned-is_user_banned_example :
    IsBarred postgres 1650000000 "ipv4:10.0.0.2"
      (postgres.store_tm (pos 1700000000))
      (is_user_banned postgres 1600000000 1600000000 "bob" "ipv4:10.0.0.2" banned_db)
unfolding find? any ip_violation
is_ip_banned-is_user_banned_example =
    is_ip_banned-is_user_banned postgres 1600000000 1600000000 "bob" "ipv4:10.0.0.2" banned_db
      (record { entry_id = 1; user_id = 2; expire = pos 1700000000 }) (pos 1700000000) 1650000000
      banned-IsReady refl refl refl refl

abbrev twice_banned : Bans
twice_banned =
    run_bans sqlite (in_turn 1600000000)
      (record { shared = chat_db; thread = two (finding "bob" (pos 1)) (finding "bob" (pos 20)) })

two-run_bans_example :
    (twice_banned.thread 0 ≡ banned 2)
    × (twice_banned.thread 1 ≡ banned 2)
    × (bans_of 2 twice_banned.shared
        ≡ (pos 1600000000 +ℤ ban_offset (pos 1)) ∷ (pos 1600000000 +ℤ ban_offset (pos 20)) ∷ [])
unfolding find? any
two-run_bans_example =
    two-run_bans sqlite 1600000000 "bob" (pos 1) (pos 20) (pos 1600000000 +ℤ ban_offset (pos 1))
      (pos 1600000000 +ℤ ban_offset (pos 20)) bob chat_db chat-IsReady refl refl refl refl

-- Bob is banned, and two calls ban alice.
abbrev alice_bans : Bans
alice_bans = record {
  shared = banned_db;
  thread = two (finding "alice" (pos 1)) (finding "alice" (pos 20));
}

alice_aimed :
    (u : User) → find? (named "alice") banned_db.users.rows ≡ some u → (u.user_id == 2) ≡ false
unfolding find?
alice_aimed u found = let same : alice ≡ u = some_injective found in rw (sym same) refl

abbrev alice_asked : ℕ → String × ℤ
alice_asked = two ("alice", pos 1) ("alice", pos 20)

alice_bans-IsOrderly : IsOrderly sqlite (λ j. j == 2) banned_db alice_asked alice_bans
unfolding any
alice_bans-IsOrderly = record {
  pool = record {
    good = record {
      ready = banned-IsReady;
      people = refl;
      accounts = (refl, tt);
      kept = λ j spared. refl;
    };
    backed = λ i. elim (Bool-cases (i == 0)) [
      | inl first ↦ rw first alice_aimed
      | inr second ↦ rw second alice_aimed
    ];
  };
  asks = λ i. elim (Bool-cases (i == 0)) [
    | inl first ↦ rw first (refl, refl)
    | inr second ↦ rw second (refl, refl)
  ];
}

run_bans-IsOrderly_example :
    IsOrderly sqlite
      (λ j. j == 2)
      banned_db
      alice_asked
      (run_bans sqlite (in_turn 1600000000) alice_bans)
run_bans-IsOrderly_example =
    run_bans-IsOrderly sqlite (in_turn 1600000000) (λ j. j == 2) banned_db alice_asked alice_bans
      alice_bans-IsOrderly
