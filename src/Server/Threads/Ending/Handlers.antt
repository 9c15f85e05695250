-- ===== src/Server/Threads/Ending/Handlers.antt =====
-- A step of a handler, on a thread of the server (Server.Threads), leaves it one fewer.
use wrongthink.Base.{
  ℕ, String, ◌-◌, ◌≤◌, Bool, true, false, Option, none, some, arith, if◌then◌else◌,
}
use wrongthink.Base.Int.{ℤ}
use wrongthink.Action.{Outcome, ok, thrown}
use wrongthink.Proto.{BanUserRequest}
use wrongthink.Db.Engine.{Engine}
use wrongthink.Db.Tables.{Db}
use wrongthink.Db.Channels.{
  insert_channel_row, select_channel_id, insert_community_row, select_community,
}
use wrongthink.Db.Users.{
  count_admins, insert_user_row, user_id_by_name, is_user_valid, is_user_admin,
}
use wrongthink.Db.Users.Threads as Users
use wrongthink.Db.Users.Threads.{Creating}
use wrongthink.Db.Channels.Threads as Channels
use wrongthink.Db.Channels.Threads.{Making}
use wrongthink.Db.Bans.{has_ban_entry, extend_ban, insert_ban}
use wrongthink.Db.Bans.Threads as Bans
use wrongthink.Db.Bans.Threads.{Banning, found_at}
use wrongthink.Service.Accounts.Guarding as Accounts
use wrongthink.Service.Accounts.Guarding.{Guarding, if_valid, if_admin}
use wrongthink.Server.Threads.Ending.Remaining.{
  creating_left, making_left, banning_left, guarding_left,
}

-- Where what follows a statement that returns is within a bound, so is what follows the statement.
after_creating :
    {A : Type 0} (n : ℕ) (f : A → Creating) (r : Outcome A × Db)
    → ((a : A) → creating_left (f a) ≤ n)
    → creating_left (Users.after f r).0 ≤ n
unfolding creating_left
after_creating n f (ok a, db) h = h a
after_creating n f (thrown x, db) h = omega (arith)

after_making :
    {A : Type 0} (n : ℕ) (f : A → Making) (r : Outcome A × Db)
    → ((a : A) → making_left (f a) ≤ n)
    → making_left (Channels.after f r).0 ≤ n
unfolding making_left
after_making n f (ok a, db) h = h a
after_making n f (thrown x, db) h = omega (arith)

after_banning :
    {A : Type 0} (n : ℕ) (f : A → Banning) (r : Outcome A × Db)
    → ((a : A) → banning_left (f a) ≤ n)
    → banning_left (Bans.after f r).0 ≤ n
unfolding banning_left
after_banning n f (ok a, db) h = h a
after_banning n f (thrown x, db) h = omega (arith)

after_guarding :
    {A : Type 0} (n : ℕ) (f : A → Guarding) (r : Outcome A × Db)
    → ((a : A) → guarding_left (f a) ≤ n)
    → guarding_left (Accounts.after f r).0 ≤ n
unfolding guarding_left
after_guarding n f (ok a, db) h = h a
after_guarding n f (thrown x, db) h = omega (arith)

module _ (e : Engine) where
  pub advance-creating_left :
      (p : Creating) (db : Db) → creating_left (Users.advance e p db).0 ≤ creating_left p - 1
  unfolding Users.advance creating_left
  advance-creating_left (Creating.counting uname token admin) db =
      after_creating 2 _ (count_admins db) (λ adminct. omega (arith))
  advance-creating_left (Creating.inserting uname token admin) db =
      after_creating 1 _ (insert_user_row e uname token admin db) (λ done. omega (arith))
  advance-creating_left (Creating.selecting uname admin) db =
      after_creating 0 _ (user_id_by_name uname db) (λ found. omega (arith))
  advance-creating_left (Creating.answered uname uid admin) db = omega (arith)
  advance-creating_left (Creating.failed x) db = omega (arith)

  pub advance-making_left :
      (p : Making) (db : Db) → making_left (Channels.advance e p db).0 ≤ making_left p - 1
  unfolding Channels.advance making_left
  advance-making_left (Making.inserting_channel name community admin_id anonymous) db =
      after_making 1 _ (insert_channel_row e name community admin_id anonymous db)
        (λ done. omega (arith))
  advance-making_left (Making.selecting_channel name) db =
      after_making 0 _ (select_channel_id name db) (λ found. omega (arith))
  advance-making_left (Making.made_channel name id) db = omega (arith)
  advance-making_left (Making.inserting_community name admin pub_flag garbage) db =
      after_making 1 _ (insert_community_row e name admin pub_flag db) (λ done. omega (arith))
  advance-making_left (Making.selecting_community name garbage) db =
      after_making 0 _ (select_community name db) (λ found. omega (arith))
  advance-making_left (Making.made_community name id) db = omega (arith)
  advance-making_left (Making.failed x) db = omega (arith)

  module _ (now : ℕ) where
    found_within : (days : ℤ) (found : Option ℕ) → banning_left (found_at days found) ≤ 2
    unfolding banning_left
    found_within days none = omega (arith)
    found_within days (some uid) = omega (arith)

    written_within :
        (uid : ℕ) (days : ℤ) (there : Bool)
        → banning_left (if there then Banning.extending uid days else Banning.inserting uid days)
          ≤ 1
    unfolding banning_left
    written_within uid days true = omega (arith)
    written_within uid days false = omega (arith)

    advance-banning_left :
        (p : Banning) (db : Db) → banning_left (Bans.advance e now p db).0 ≤ banning_left p - 1
    unfolding Bans.advance banning_left
    advance-banning_left (Banning.finding uname days) db =
        after_banning 2 _ (user_id_by_name uname db) (found_within _)
    advance-banning_left (Banning.checking uid days) db =
        after_banning 1 _ (has_ban_entry uid db) (written_within uid days)
    advance-banning_left (Banning.extending uid days) db =
        after_banning 0 _ (extend_ban e now uid days db) (λ done. omega (arith))
    advance-banning_left (Banning.inserting uid days) db =
        after_banning 0 _ (insert_ban e now uid days db) (λ done. omega (arith))
    advance-banning_left (Banning.banned uid) db = omega (arith)
    advance-banning_left (Banning.failed x) db = omega (arith)

    valid_within :
        (uname token : String) (request : BanUserRequest) (valid : Bool)
        → guarding_left (if_valid uname token request valid) ≤ 4
    unfolding guarding_left
    valid_within uname token request true = omega (arith)
    valid_within uname token request false = omega (arith)

    admin_within :
        (uname token : String) (request : BanUserRequest) (admin : Bool)
        → guarding_left (if_admin uname token request admin) ≤ 3
    unfolding guarding_left banning_left
    admin_within uname token request true = omega (arith)
    admin_within uname token request false = omega (arith)

    pub advance-guarding_left :
        (p : Guarding) (db : Db)
        → guarding_left (Accounts.advance e now p db).0 ≤ guarding_left p - 1
    unfolding Accounts.advance guarding_left
    advance-guarding_left (Guarding.validating uname token request) db =
        after_guarding 4 _ (is_user_valid uname token db) (valid_within uname token request)
    advance-guarding_left (Guarding.admitting uname token request) db =
        after_guarding 3 _ (is_user_admin uname db) (admin_within uname token request)
    advance-guarding_left (Guarding.banning uname token p) db = advance-banning_left p db
    advance-guarding_left (Guarding.denied status) db = omega (arith)
