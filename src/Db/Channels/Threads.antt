-- ===== src/Db/Channels/Threads.antt =====
-- Calls of `createChannel` and `createCommunity` (DB/DBPostgres.cpp) that run at once, each on a
-- session of its own: between the insert of one call and its select, the statements of others run.
use wrongthink.Base.{ℕ, String, Bool, Option, get_or, ◌≡◌, refl}
use wrongthink.Action.{Exception, Outcome, ok, thrown, pure, and_then}
use wrongthink.Db.Engine.{Engine}
use wrongthink.Db.Tables.{Db}
use wrongthink.Db.Channels.{
  insert_channel_row, select_channel_id, create_channel, insert_community_row, select_community,
  create_community,
}

-- The statement that a call runs next, with its variables, or how it ended. The variable
-- `community_id` is not initialised: it is the last number of a call that creates a community.
pub data Making : Type 0 where
  inserting_channel : String → ℕ → ℕ → Bool → Making
  selecting_channel : String → Making
  made_channel : String → ℕ → Making
  inserting_community : String → ℕ → Bool → ℕ → Making
  selecting_community : String → ℕ → Making
  made_community : String → ℕ → Making
  failed : Exception → Making

abbrev pub after : {A : Type 0} → (A → Making) → Outcome A × Db → Making × Db
after f (ok a, db) = (f a, db)
after f (thrown x, db) = (failed x, db)

-- One statement.
unfoldable pub advance : Engine → Making → Db → Making × Db
advance e (inserting_channel name community admin_id anonymous) db =
    after (λ done. selecting_channel name)
      (insert_channel_row e name community admin_id anonymous db)
advance e (selecting_channel name) db =
    after (λ found. made_channel name (get_or found 0)) (select_channel_id name db)
advance e (made_channel name id) db = (made_channel name id, db)
advance e (inserting_community name admin pub_flag garbage) db =
    after (λ done. selecting_community name garbage) (insert_community_row e name admin pub_flag db)
advance e (selecting_community name garbage) db =
    after (λ found. made_community name (get_or found garbage)) (select_community name db)
advance e (made_community name id) db = (made_community name id, db)
advance e (failed x) db = (failed x, db)

abbrev next : Engine → Making × Db → Making × Db
next e (p, db) = advance e p db

module _ (e : Engine) (name : String) where
  found_channel :
      (r : Outcome (Option ℕ) × Db)
      → after (λ found. made_channel name (get_or found 0)) r
        ≡ after (made_channel name) (and_then (λ found. pure (get_or found 0)) r)
  found_channel (ok found, db) = refl
  found_channel (thrown x, db) = refl

  after_channel :
      (r : Outcome (Unit {0}) × Db)
      → next e (after (λ done. selecting_channel name) r)
        ≡ after (made_channel name) (
            and_then
              (λ done. λ db. and_then (λ found. pure (get_or found 0)) (select_channel_id name db))
              r)
  unfolding advance
  after_channel (ok done, db) = found_channel (select_channel_id name db)
  after_channel (thrown x, db) = refl

  -- The two statements of a call, run one after the other with no other call between them, do to the
  -- tables and answer just what `createChannel` does.
  pub two_steps-eq-create_channel :
      (community admin_id : ℕ) (anonymous : Bool) (db : Db)
      → next e (advance e (inserting_channel name community admin_id anonymous) db)
        ≡ after (made_channel name) (create_channel e name community admin_id anonymous db)
  unfolding advance create_channel
  two_steps-eq-create_channel community admin_id anonymous db =
      after_channel (insert_channel_row e name community admin_id anonymous db)

  module _ (garbage : ℕ) where
    found_community :
        (r : Outcome (Option ℕ) × Db)
        → after (λ found. made_community name (get_or found garbage)) r
          ≡ after (made_community name) (and_then (λ found. pure (get_or found garbage)) r)
    found_community (ok found, db) = refl
    found_community (thrown x, db) = refl

    after_community :
        (r : Outcome (Unit {0}) × Db)
        → next e (after (λ done. selecting_community name garbage) r)
          ≡ after (made_community name) (
              and_then
                (λ done.
                  λ db. and_then (λ found. pure (get_or found garbage)) (select_community name db))
                r)
    unfolding advance
    after_community (ok done, db) = found_community (select_community name db)
    after_community (thrown x, db) = refl

    -- The same for `createCommunity`.
    pub two_steps-eq-create_community :
        (admin : ℕ) (pub_flag : Bool) (db : Db)
        → next e (advance e (inserting_community name admin pub_flag garbage) db)
          ≡ after (made_community name) (create_community e garbage name admin pub_flag db)
    unfolding advance create_community
    two_steps-eq-create_community admin pub_flag db =
        after_community (insert_community_row e name admin pub_flag db)
