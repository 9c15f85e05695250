-- ===== src/Db/Bans/Lookups/Effects.antt =====
-- What the statements of `isIPBanned` and `isUserBanned` can change (DB/DBPostgres.cpp): the table of
-- banned addresses.
use wrongthink.Base.{ℕ, String, Option, none, some, ◌≡◌, refl, not, Option-cases, inl, inr}
use wrongthink.Base.Int.{ℤ}
use wrongthink.Action.{Action, Outcome, ok, thrown}
use wrongthink.Db.Engine.{Engine}
use wrongthink.Db.Tables.{BannedIp, Table, Db}
use wrongthink.Db.Relations.{IsUnique, IsUnique-filter}
use wrongthink.Db.Sql.{Statement, execute}
use wrongthink.Db.Sql.Schema.{IsReady}
use wrongthink.Db.Sql.Statements.{execute-cases}
use wrongthink.Db.Bans.{
  has_ip, fetch_tm, select_ip, delete_ip, select_user, ip_violation, insert_ip,
}
use wrongthink.Db.Bans.Users.{delete_user_throws}
use wrongthink.Db.Bans.Framing.{insert-exists}
use wrongthink.Db.Bans.Frames.{inserted_address}
use wrongthink.Db.Bans.Lookups.{
  Looking, selecting_ip, deleting_ip, selecting_user, deleting_user, checking_ip, clearing_ip,
  inserting_ip, looked, failed, after, advance,
}

abbrev pub with_ips : Table BannedIp → Db → Db
with_ips t db = record db { banned_ips = t }

-- The database is as it was but for the banned addresses, whose table is still there; each address
-- has one row if it had.
pub record IsIpsOnly (db after : Db) : Type 0 where
  pub ips : Table BannedIp
  pub there : ips.exists ≡ db.banned_ips.exists
  pub same : after ≡ with_ips ips db
  pub addresses :
      IsUnique (λ (b : BannedIp). b.ip) db.banned_ips.rows
      → IsUnique (λ (b : BannedIp). b.ip) ips.rows

nothing-IsIpsOnly : (db : Db) → IsIpsOnly db db
nothing-IsIpsOnly db = record { ips = db.banned_ips; there = refl; same = refl; addresses = λ u. u }

abbrev Ips : {A : Type 0} → Action Db A → Type 0
Ips m = (db : Db) → IsIpsOnly db (m db).1

execute-Ips : {A : Type 0} (s : Statement) (body : Action Db A) → Ips body → Ips (execute s body)
execute-Ips s body h db = elim (execute-cases s body db) [
  | inl same ↦ rw same (h db)
  | inr (x, same) ↦ rw same (nothing-IsIpsOnly db)
]

fetch_tm-Ips : (e : Engine) (o : Option ℤ) → Ips (fetch_tm e o)
fetch_tm-Ips e none db = nothing-IsIpsOnly db
fetch_tm-Ips e (some expire) db = elim (Option-cases (e.load_tm expire)) [
  | inl bad ↦ rw (bad, fetch_tm) (nothing-IsIpsOnly db)
  | inr (te, loaded) ↦ rw (loaded, fetch_tm) (nothing-IsIpsOnly db)
]

after_state : {A : Type 0} (f : A → Looking) (r : Outcome A × Db) → (after f r).1 ≡ r.1
after_state f (ok a, db) = refl
after_state f (thrown x, db) = refl

module _ (e : Engine) where
  select_ip-Ips : (ip : String) → Ips (select_ip e ip)
  unfolding select_ip
  select_ip-Ips ip = execute-Ips _ _ (λ db. fetch_tm-Ips e _ db)

  select_user-Ips : (uname : String) → Ips (select_user e uname)
  unfolding select_user
  select_user-Ips uname = execute-Ips _ _ (λ db. fetch_tm-Ips e _ db)

  delete_ip-Ips : (ip : String) → Ips (delete_ip ip)
  unfolding delete_ip
  delete_ip-Ips ip = execute-Ips _ _ (λ db. record {
    ips = _;
    there = refl;
    same = refl;
    addresses =
        IsUnique-filter (λ (b : BannedIp). b.ip) (λ b. not (has_ip ip b)) db.banned_ips.rows;
  })

  insert_ip-Ips : (ip : String) (date : ℤ) → Ips (insert_ip e ip date)
  unfolding insert_ip
  insert_ip-Ips ip date = execute-Ips _ _ (λ db. elim (Option-cases (e.store_tm date)) [
    | inl bad ↦ rw bad (record { ips = _; there = refl; same = refl; addresses = λ u. u })
    | inr (stored, good) ↦ rw good (record {
      ips = _;
      there =
          insert-exists e (λ (b : BannedIp). b.entry_id)
            (λ id. record { entry_id = id; ip = ip; expire = stored })
            (ip_violation e ip db.banned_ips.rows) db.banned_ips;
      same = refl;
      addresses = inserted_address e ip stored db.banned_ips;
    })
  ])

  -- Each statement, on a complete schema: the one that would delete bans of accounts throws.
  pub advance-IsIpsOnly :
      (now : ℕ) (p : Looking) (db : Db) → IsReady db → IsIpsOnly db (advance e now p db).1
  unfolding advance
  advance-IsIpsOnly now (selecting_ip ip) db ready =
      rw (after_state _ (select_ip e ip db)) (select_ip-Ips ip db)
  advance-IsIpsOnly now (deleting_ip ip) db ready =
      rw (after_state _ (delete_ip ip db)) (delete_ip-Ips ip db)
  advance-IsIpsOnly now (selecting_user uname ip) db ready =
      rw (after_state _ (select_user e uname db)) (select_user-Ips uname db)
  advance-IsIpsOnly now (deleting_user uname) db ready =
      rw (delete_user_throws e db ready uname) (nothing-IsIpsOnly db)
  advance-IsIpsOnly now (checking_ip ip date) db ready =
      rw (after_state _ (select_ip e ip db)) (select_ip-Ips ip db)
  advance-IsIpsOnly now (clearing_ip ip date) db ready =
      rw (after_state _ (delete_ip ip db)) (delete_ip-Ips ip db)
  advance-IsIpsOnly now (inserting_ip ip date) db ready =
      rw (after_state _ (insert_ip e ip date db)) (insert_ip-Ips ip date db)
  advance-IsIpsOnly now (looked b) db ready = nothing-IsIpsOnly db
  advance-IsIpsOnly now (failed x) db ready = nothing-IsIpsOnly db
