-- ===== src/Db/Bans/Ips.antt =====
-- `isIPBanned` (DB/DBPostgres.cpp): its answer, and the deletion of bans that have expired.
use wrongthink.Base.{
  ℕ, String, Bool, true, false, Option, none, some, List, [], ◌∷◌, filter, any, find?,
  find?-any-false, find?-any-true, ◌≡◌, refl, ap, sym, arith, str_eq, eq_iff, not, if◌then◌else◌,
  Bool-cases, Option-cases, inl, inr,
}
use wrongthink.Base.Int.{ℤ, pos, ltb_ℤ}
use wrongthink.Action.{Outcome, ok, thrown, bad_conversion}
use wrongthink.Db.Engine.{Engine}
use wrongthink.Db.Tables.{BannedIp, Db}
use wrongthink.Db.Sql.{names_resolve}
use wrongthink.Db.Sql.Schema.{IsReady}
use wrongthink.Db.Sql.Statements.{select_ip_ban, delete_ip_ban, execute_ready}
use wrongthink.Db.Bans.{has_ip, ip_expiry, fetch_tm, select_ip, delete_ip, is_ip_banned}

abbrev pub without_ip : String → Db → Db
without_ip ip db = record db {
  banned_ips = record db.banned_ips { rows = filter (λ b. not (has_ip ip b)) db.banned_ips.rows };
}

module _ (e : Engine) (now : ℕ) (ip : String) (db : Db) (ready : IsReady db) where
  select_ip_ready : select_ip e ip db ≡ fetch_tm e (ip_expiry ip db) db
  unfolding select_ip names_resolve
  select_ip_ready = execute_ready select_ip_ban _ db ready refl

  delete_ip_ready : delete_ip ip db ≡ (ok tt, without_ip ip db)
  unfolding delete_ip names_resolve
  delete_ip_ready = execute_ready delete_ip_ban _ db ready refl

  pub is_ip_banned_free :
      any (has_ip ip) db.banned_ips.rows ≡ false → is_ip_banned e now ip db ≡ (ok false, db)
  unfolding is_ip_banned
  is_ip_banned_free h = rw (select_ip_ready, find?-any-false (has_ip ip) db.banned_ips.rows h)

  module _ (b : BannedIp) (te : ℤ) (found : find? (has_ip ip) db.banned_ips.rows ≡ some b)
      (loads : e.load_tm b.expire ≡ some te) where
    pub is_ip_banned_active : ltb_ℤ te (pos now) ≡ false → is_ip_banned e now ip db ≡ (ok true, db)
    unfolding is_ip_banned
    is_ip_banned_active h = rw (select_ip_ready, found, loads, h)

    pub is_ip_banned_expired :
        ltb_ℤ te (pos now) ≡ true → is_ip_banned e now ip db ≡ (ok false, without_ip ip db)
    unfolding is_ip_banned
    is_ip_banned_expired h = rw (select_ip_ready, found, loads, h, delete_ip_ready)

-- An expiry that cannot be read.
module _ (e : Engine) (now : ℕ) (ip : String) (db : Db) (ready : IsReady db) (b : BannedIp)
    (found : find? (has_ip ip) db.banned_ips.rows ≡ some b) where
  is_ip_banned_unread :
      e.load_tm b.expire ≡ none → is_ip_banned e now ip db ≡ (thrown bad_conversion, db)
  unfolding is_ip_banned
  is_ip_banned_unread fails = rw (select_ip_ready e now ip db ready, found, fails)

filter-gone :
    (ip : String) (rows : List BannedIp)
    → any (has_ip ip) (filter (λ b. not (has_ip ip b)) rows) ≡ false
unfolding any filter
filter-gone ip [] = refl
filter-gone ip (b ∷ bs) = ground (arith, filter-gone ip bs)

filter-kept :
    (ip other : String) (rows : List BannedIp)
    → str_eq other ip ≡ false
    → filter (has_ip other) (filter (λ b. not (has_ip ip b)) rows) ≡ filter (has_ip other) rows
unfolding filter
filter-kept ip other [] h = refl
filter-kept ip other (b ∷ bs) h = elim (Bool-cases (str_eq ip b.ip)) [
  | inl gone ↦
      let same : ip ≡ b.ip = (eq_iff ip b.ip).0 gone in
      let skip : str_eq other b.ip ≡ false = rw (sym same) h in
      rw (gone, filter) (rw (skip, filter) (filter-kept ip other bs h))
  | inr kept ↦
      rw (kept, filter)
        (ap (λ (r : List BannedIp). if str_eq other b.ip then b ∷ r else r)
          (filter-kept ip other bs h))
]

-- What a check answers for the expiry that SOCI reads, if it can read one.
abbrev pub seen : ℕ → Option ℤ → Outcome Bool
seen now none = thrown bad_conversion
seen now (some te) = ok (not (ltb_ℤ te (pos now)))

abbrev pub of_ban : Engine → ℕ → Option BannedIp → Outcome Bool
of_ban e now none = ok false
of_ban e now (some b) = seen now (e.load_tm b.expire)

-- What it answers for the first ban of the address in the table, or for none.
abbrev pub ip_answer : Engine → ℕ → String → Db → Outcome Bool
ip_answer e now ip db = of_ban e now (find? (has_ip ip) db.banned_ips.rows)

abbrev pub is_clear : Outcome Bool → Bool
is_clear (ok banned) = not banned
is_clear (thrown x) = false

-- What a check of an address does: where it answers that the address is not banned, it leaves no
-- ban of it, and those of the other addresses as they were; otherwise it changes nothing.
pub record IsIpChecked (ip : String) (outcome : Outcome Bool) (before : Db)
    (result : Outcome Bool × Db) : Type 0 where
  pub answer : result.0 ≡ outcome
  pub unchanged : is_clear outcome ≡ false → result.1 ≡ before
  pub gone : is_clear outcome ≡ true → any (has_ip ip) result.1.banned_ips.rows ≡ false
  pub others :
      (other : String)
      → str_eq other ip ≡ false
      → filter (has_ip other) result.1.banned_ips.rows
        ≡ filter (has_ip other) before.banned_ips.rows

-- A check that leaves the tables alone.
same-IsIpChecked :
    (ip : String) (outcome : Outcome Bool) (db : Db)
    → (is_clear outcome ≡ true → any (has_ip ip) db.banned_ips.rows ≡ false)
    → IsIpChecked ip outcome db (outcome, db)
same-IsIpChecked ip outcome db free = record {
  answer = refl;
  unchanged = λ h. refl;
  gone = free;
  others = λ other h. refl;
}

module _ (e : Engine) (now : ℕ) (ip : String) (db : Db) (ready : IsReady db) where
  read-IsIpChecked :
      (b : BannedIp) (te : ℤ)
      → find? (has_ip ip) db.banned_ips.rows ≡ some b
      → e.load_tm b.expire ≡ some te
      → IsIpChecked ip (ok (not (ltb_ℤ te (pos now)))) db (is_ip_banned e now ip db)
  read-IsIpChecked b te found loads = elim (Bool-cases (ltb_ℤ te (pos now))) [
    | inl over ↦
        rw (is_ip_banned_expired e now ip db ready b te found loads over, over)
          (record {
            answer = refl;
            unchanged = λ h. absurd (ground (arith, h));
            gone = λ h. filter-gone ip db.banned_ips.rows;
            others = λ other h. filter-kept ip other db.banned_ips.rows h;
          })
    | inr active ↦
        rw (is_ip_banned_active e now ip db ready b te found loads active, active)
          (same-IsIpChecked ip (ok true) db (λ h. absurd (ground (arith, h))))
  ]

  -- On a complete schema, `isIPBanned` answers for the first ban of the address in the table: false
  -- where there is none, or where the expiry that SOCI reads from its `int` column has passed; true
  -- where it has not; and it throws where SOCI reads none. Where it answers false, no ban of the
  -- address is left, and those of every other address stay; otherwise nothing changes.
  pub is_ip_banned-IsIpChecked :
      IsIpChecked ip (ip_answer e now ip db) db (is_ip_banned e now ip db)
  is_ip_banned-IsIpChecked = elim (Bool-cases (any (has_ip ip) db.banned_ips.rows)) [
    | inr free ↦
        rw
          (
            is_ip_banned_free e now ip db ready free,
            find?-any-false (has_ip ip) db.banned_ips.rows free,
          )
          (same-IsIpChecked ip (ok false) db (λ h. free))
    | inl there ↦
        let (b, found, hit) = find?-any-true (has_ip ip) db.banned_ips.rows there in
        elim (Option-cases (e.load_tm b.expire)) [
          | inl fails ↦
              rw (is_ip_banned_unread e now ip db ready b found fails, found, fails)
                (same-IsIpChecked ip (thrown bad_conversion) db (λ h. absurd (ground (arith, h))))
          | inr (te, loads) ↦ rw (found, loads) (read-IsIpChecked b te found loads)
        ]
  ]
