-- ===== src/Db/Bans/Users.antt =====
-- `isUserBanned` (DB/DBPostgres.cpp): its answer, the ban of the address, and what happens to bans
-- that have expired.
use wrongthink.Base.{
  ℕ, String, Bool, true, false, Option, Option-cases, inl, inr, none, some, [], ◌∷◌, any, find?,
  find?-any-false, find?-append_none, eq_refl, ◌≡◌, refl, ◌∙◌, arith,
}
use wrongthink.Base.Int.{ℤ, pos, ltb_ℤ}
use wrongthink.Action.{Outcome, ok, thrown, undefined_column, bad_conversion}
use wrongthink.Db.Engine.{Engine}
use wrongthink.Db.Tables.{BannedUser, BannedIp, Db, appended, next_id}
use wrongthink.Db.Sql.{names_resolve}
use wrongthink.Db.Sql.Schema.{IsReady}
use wrongthink.Db.Sql.Statements.{
  select_user_ban, delete_user_ban, insert_banned_ip, execute_ready, execute_misnamed,
}
use wrongthink.Db.Bans.{
  has_ip, bans_name, user_expiry, fetch_tm, select_user, delete_user, ip_violation, insert_ip,
  is_ip_banned, is_user_banned,
}
use wrongthink.Db.Bans.Ips.{seen, is_ip_banned_free, is_ip_banned-IsIpChecked}

abbrev pub with_ip : Engine → String → ℤ → Db → Db
with_ip e ip expire db = record db {
  banned_ips =
      appended e (λ b. b.entry_id) (λ id. record { entry_id = id; ip = ip; expire = expire })
        db.banned_ips;
}

module _ (e : Engine) (db : Db) (ready : IsReady db) where
  select_user_ready :
      (uname : String) → select_user e uname db ≡ fetch_tm e (user_expiry uname db) db
  unfolding select_user names_resolve
  select_user_ready uname = execute_ready select_user_ban _ db ready refl

  pub delete_user_throws : (uname : String) → delete_user uname db ≡ (thrown undefined_column, db)
  unfolding delete_user names_resolve
  delete_user_throws uname = execute_misnamed delete_user_ban _ db ready refl

  insert_ip_ready :
      (ip : String) (date stored : ℤ)
      → e.store_tm date ≡ some stored
      → ip_violation e ip db.banned_ips.rows ≡ none
      → insert_ip e ip date db ≡ (ok tt, with_ip e ip stored db)
  unfolding insert_ip names_resolve
  insert_ip_ready ip date stored stores free =
      execute_ready insert_banned_ip _ db ready refl ∙ rw (stores, free)

module _ (e : Engine) (now later : ℕ) (uname ip : String) (db : Db) (ready : IsReady db) where
  -- A user with no ban is not banned, and nothing changes.
  pub is_user_banned_free :
      any (bans_name uname db) db.banned_users.rows ≡ false
      → is_user_banned e now later uname ip db ≡ (ok false, db)
  unfolding is_user_banned
  is_user_banned_free h = rw (
    select_user_ready e db ready uname,
    find?-any-false (bans_name uname db) db.banned_users.rows h,
  )

  module _ (b : BannedUser) (te : ℤ)
      (found : find? (bans_name uname db) db.banned_users.rows ≡ some b)
      (loads : e.load_tm b.expire ≡ some te) where
    -- On a complete schema, for a user whose ban has expired the call throws, and the ban stays:
    -- the statement that would delete it names a column that the table does not have.
    pub is_user_banned_expired :
        ltb_ℤ te (pos now) ≡ true
        → is_user_banned e now later uname ip db ≡ (thrown undefined_column, db)
    unfolding is_user_banned
    is_user_banned_expired h =
        rw
          (select_user_ready e db ready uname, found, loads, h, delete_user_throws e db ready uname)

    -- A user whose ban has not expired is banned, and so is the address from then on, until the
    -- same time. This is so for an address that has no ban and that the column takes.
    pub is_user_banned_bans_ip :
        (stored : ℤ)
        → ltb_ℤ te (pos now) ≡ false
        → e.store_tm te ≡ some stored
        → ip_violation e ip db.banned_ips.rows ≡ none
        → is_user_banned e now later uname ip db ≡ (ok true, with_ip e ip stored db)
    unfolding is_user_banned ip_violation
    is_user_banned_bans_ip stored h stores free =
        let unbanned : any (has_ip ip) db.banned_ips.rows ≡ false = ground arith in
        rw (
          select_user_ready e db ready uname,
          found,
          loads,
          h,
          is_ip_banned_free e later ip db ready unbanned,
          insert_ip_ready e db ready ip te stored stores free,
        )

-- What a check of a user whose ban lasts leaves for the address, by what the engine stores for the
-- expiry: where it stores nothing, the check throws, and the address has no ban; otherwise it
-- answers true, and `isIPBanned` answers at `t` as what is read back of the expiry says.
abbrev pub IsBarred : Engine → ℕ → String → Option ℤ → Outcome Bool × Db → Type 0
IsBarred e t ip none r =
    (r.0 ≡ thrown bad_conversion) × (any (has_ip ip) r.1.banned_ips.rows ≡ false)
IsBarred e t ip (some stored) r =
    (r.0 ≡ ok true) × ((is_ip_banned e t ip r.1).0 ≡ seen t (e.load_tm stored))

module _ (e : Engine) (now later : ℕ) (uname ip : String) (db : Db) (b : BannedUser) (te : ℤ)
    (t : ℕ) (ready : IsReady db) (found : find? (bans_name uname db) db.banned_users.rows ≡ some b)
    (loads : e.load_tm b.expire ≡ some te) (active : ltb_ℤ te (pos now) ≡ false)
    (free : ip_violation e ip db.banned_ips.rows ≡ none) where
  unbanned : any (has_ip ip) db.banned_ips.rows ≡ false
  unfolding ip_violation
  unbanned = ground arith

  insert_ip_unstored :
      e.store_tm te ≡ none
      → insert_ip e ip te db ≡ (
        thrown bad_conversion,
        record db {
          banned_ips = record db.banned_ips { sequence = e.after_failure db.banned_ips.sequence };
        },
      )
  unfolding insert_ip names_resolve
  insert_ip_unstored fails = execute_ready insert_banned_ip _ db ready refl ∙ rw fails

  unstored-IsBarred :
      e.store_tm te ≡ none → IsBarred e t ip none (is_user_banned e now later uname ip db)
  unfolding is_user_banned
  unstored-IsBarred fails =
      rw
        (
          select_user_ready e db ready uname,
          found,
          loads,
          active,
          is_ip_banned_free e later ip db ready unbanned,
          insert_ip_unstored fails,
        )
        (refl, unbanned)

  stored-IsBarred :
      (stored : ℤ)
      → e.store_tm te ≡ some stored
      → IsBarred e t ip (some stored) (is_user_banned e now later uname ip db)
  unfolding find?
  stored-IsBarred stored stores =
      let new : BannedIp = record {
        entry_id = next_id e (λ (x : BannedIp). x.entry_id) db.banned_ips;
        ip = ip;
        expire = stored;
      } in
      let there : find? (has_ip ip) (with_ip e ip stored db).banned_ips.rows ≡ some new =
        find?-append_none (has_ip ip) db.banned_ips.rows (new ∷ []) unbanned ∙ rw (eq_refl ip) in
      rw
        (is_user_banned_bans_ip e now later uname ip db ready b te found loads stored active stores
          free)
        (
          refl,
          rw there at
              ((is_ip_banned-IsIpChecked e t ip (with_ip e ip stored db) (ground arith)).answer),
        )

  -- On a complete schema, for a user whose first ban in the table has an expiry that SOCI reads and
  -- that has not passed, who calls from an address that has no ban yet and that fits its column:
  -- where SOCI can write the
  -- expiry into an `int` column, `isUserBanned` answers true and bans the address, and from then on
  -- `isIPBanned` answers for that address, whoever calls from it, by the expiry that SOCI reads back:
  -- true until it has passed, and it throws where SOCI reads none. Where SOCI cannot write the
  -- expiry, `isUserBanned` throws, and the address has no ban.
  pub is_ip_banned-is_user_banned :
      IsBarred e t ip (e.store_tm te) (is_user_banned e now later uname ip db)
  is_ip_banned-is_user_banned = elim (Option-cases (e.store_tm te)) [
    | inl fails ↦ rw fails (unstored-IsBarred fails)
    | inr (stored, stores) ↦ rw stores (stored-IsBarred stored stores)
  ]
