-- ===== src/Server/Threads/Ending/Checks.antt =====
-- A step of a check of the interceptor, on a thread of the server (Server.Threads), leaves it one
-- fewer.
use wrongthink.Base.{
  ℕ, ◌+◌, ◌-◌, ◌≤◌, String, Bool, true, false, Option, none, some, List, [], ◌∷◌, arith, drop,
  if◌then◌else◌,
}
use wrongthink.Base.Int.{ℤ, pos, ltb_ℤ}
use wrongthink.Action.{Exception, Outcome, ok, thrown}
use wrongthink.Proto.{WrongthinkMessage}
use wrongthink.Db.Engine.{Engine}
use wrongthink.Db.Tables.{Db}
use wrongthink.Db.Bans.{select_ip, delete_ip, select_user, delete_user, insert_ip}
use wrongthink.Db.Bans.Lookups as Lookups
use wrongthink.Db.Bans.Lookups.{Looking, ip_found, user_found, ip_checked}
use wrongthink.Service.Soundness.Runs.{
  Request, generates_user, creates_user, bans_user, creates_channel, creates_community, sends_web,
  sends, listens, gets_messages, gets_channels, gets_communities, deletes_message,
}
use wrongthink.Server.Threads.{begun, streaming, next_batch, next_check, checked}
use wrongthink.Server.Threads.Ending.Remaining.{
  looking_left, checks_left, batches_left, call_left, handler_left, remaining,
}

-- A handler begins with no checks to come.
streaming-remaining :
    (msgs : List WrongthinkMessage) → remaining (streaming msgs) ≤ handler_left (streaming msgs)
unfolding remaining
streaming-remaining [] = omega (arith)
streaming-remaining (msg ∷ msgs) = omega (arith)

begun-remaining : (r : Request) → remaining (begun r) ≤ handler_left (begun r)
unfolding remaining
begun-remaining (generates_user uuid1 uuid2) = omega (arith)
begun-remaining (creates_user request) = omega (arith)
begun-remaining (bans_user now cmeta request) = omega (arith)
begun-remaining (creates_channel request) = omega (arith)
begun-remaining (creates_community garbage request) = omega (arith)
begun-remaining (sends_web clock msg) = omega (arith)
begun-remaining (sends clock reader) = streaming-remaining (drop reader.pos reader.obj_list)
begun-remaining (listens channelid) = omega (arith)
begun-remaining (gets_messages request) = omega (arith)
begun-remaining (gets_channels community) = omega (arith)
begun-remaining (gets_communities scan) = omega (arith)
begun-remaining deletes_message = omega (arith)

module _ (request : Request) where
  next_batch-remaining :
      (batches : List (List Looking)) (handled : Bool)
      → remaining (next_batch batches handled request) ≤ call_left batches handled request
  unfolding call_left batches_left checks_left remaining handler_left
  next_batch-remaining [] true = omega (arith, begun-remaining request)
  next_batch-remaining [] false = omega (arith)
  next_batch-remaining ([] ∷ batches) handled = omega (arith, next_batch-remaining batches handled)
  next_batch-remaining ((p ∷ ps) ∷ batches) handled = omega (arith)

  module _ (batches : List (List Looking)) (handled : Bool) where
    next_check-remaining :
        (ps : List Looking)
        → remaining (next_check ps batches handled request)
          ≤ checks_left ps + call_left batches handled request
    unfolding checks_left remaining
    next_check-remaining [] = omega (arith, next_batch-remaining batches handled)
    next_check-remaining (p ∷ ps) = omega (arith)

    module _ (ps : List Looking) where
      abbrev left_behind : ℕ
      left_behind = checks_left ps + call_left batches handled request

      pub checked_looked :
          (b : Bool)
          → remaining (checked ps batches handled request (Looking.looked b)) ≤ left_behind
      checked_looked b = next_check-remaining ps

      pub checked_failed :
          (x : Exception)
          → remaining (checked ps batches handled request (Looking.failed x)) ≤ left_behind
      checked_failed x = omega (arith, next_batch-remaining batches handled)

      -- Where what follows a statement that returns is within a bound, so is what follows the
      -- statement.
      after_looking :
          {A : Type 0} (n : ℕ) (f : A → Looking) (r : Outcome A × Db)
          → ((a : A) → remaining (checked ps batches handled request (f a)) ≤ n + left_behind)
          → remaining (checked ps batches handled request (Lookups.after f r).0) ≤ n + left_behind
      after_looking n f (ok a, db) h = h a
      after_looking n f (thrown x, db) h = omega (arith, checked_failed x)

      -- The same for one that is the last of its check.
      after_last :
          (b : Bool) (r : Outcome (Unit {0}) × Db)
          → remaining
              (checked ps batches handled request (Lookups.after (λ done. Looking.looked b) r).0)
            ≤ left_behind
      after_last b (ok done, db) = checked_looked b
      after_last b (thrown x, db) = checked_failed x

      ip_within :
          (ip : String) (expired : Bool)
          → remaining (
              checked ps batches handled request
                (if expired then Looking.deleting_ip ip else Looking.looked true))
            ≤ 1 + left_behind
      unfolding remaining looking_left
      ip_within ip true = omega (arith)
      ip_within ip false = omega (arith, checked_looked true)

      found_within :
          (now : ℕ) (ip : String) (found : Option ℤ)
          → remaining (checked ps batches handled request (ip_found now ip found)) ≤ 1 + left_behind
      found_within now ip none = omega (arith, checked_looked false)
      found_within now ip (some te) = ip_within ip (ltb_ℤ te (pos now))

      user_within :
          (uname ip : String) (te : ℤ) (expired : Bool)
          → remaining (
              checked ps batches handled request
                (if expired then Looking.deleting_user uname else Looking.checking_ip ip te))
            ≤ 3 + left_behind
      unfolding remaining looking_left
      user_within uname ip te true = omega (arith)
      user_within uname ip te false = omega (arith)

      user_found_within :
          (now : ℕ) (uname ip : String) (found : Option ℤ)
          → remaining (checked ps batches handled request (user_found now uname ip found))
            ≤ 3 + left_behind
      user_found_within now uname ip none = omega (arith, checked_looked false)
      user_found_within now uname ip (some te) = user_within uname ip te (ltb_ℤ te (pos now))

      clear_within :
          (ip : String) (date : ℤ) (expired : Bool)
          → remaining (
              checked ps batches handled request
                (if expired then Looking.clearing_ip ip date else Looking.looked true))
            ≤ 2 + left_behind
      unfolding remaining looking_left
      clear_within ip date true = omega (arith)
      clear_within ip date false = omega (arith, checked_looked true)

      checked_within :
          (now : ℕ) (ip : String) (date : ℤ) (found : Option ℤ)
          → remaining (checked ps batches handled request (ip_checked now ip date found))
            ≤ 2 + left_behind
      unfolding remaining looking_left
      checked_within now ip date none = omega (arith)
      checked_within now ip date (some te) = clear_within ip date (ltb_ℤ te (pos now))

      pub checked-remaining :
          (e : Engine) (now : ℕ) (p : Looking) (db : Db)
          → remaining (checked ps batches handled request (Lookups.advance e now p db).0)
            ≤ looking_left p + left_behind - 1
      unfolding Lookups.advance looking_left remaining
      checked-remaining e now (Looking.selecting_ip ip) db =
          omega (arith, after_looking 1 _ (select_ip e ip db) (found_within now ip))
      checked-remaining e now (Looking.deleting_ip ip) db =
          omega (arith, after_last false (delete_ip ip db))
      checked-remaining e now (Looking.selecting_user uname ip) db =
          omega (arith, after_looking 3 _ (select_user e uname db) (user_found_within now uname ip))
      checked-remaining e now (Looking.deleting_user uname) db =
          omega (arith, after_last false (delete_user uname db))
      checked-remaining e now (Looking.checking_ip ip date) db =
          omega (arith, after_looking 2 _ (select_ip e ip db) (checked_within now ip date))
      checked-remaining e now (Looking.clearing_ip ip date) db = omega (
        arith,
        after_looking 1 (λ done. Looking.inserting_ip ip date) (delete_ip ip db)
            (λ done. omega (arith)),
      )
      checked-remaining e now (Looking.inserting_ip ip date) db =
          omega (arith, after_last true (insert_ip e ip date db))
      checked-remaining e now (Looking.looked b) db = omega (arith, checked_looked b)
      checked-remaining e now (Looking.failed x) db = omega (arith, checked_failed x)
