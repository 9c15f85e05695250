-- ===== src/Db/Bans/Frames.antt =====
-- What the ban operations leave alone, on any schema and whatever they throw (DB/DBPostgres.cpp):
-- `banUser`, `isUserBanned` and `isIPBanned`.
use wrongthink.Base.{
  List, ℕ, String, false, Option, none, some, ◌≡◌, refl, Bool-cases, Option-cases, inl, inr, not,
  any, arith, All-filter,
}
use wrongthink.Base.Int.{ℤ, pos, ltb_ℤ}
use wrongthink.Db.Engine.{Engine}
use wrongthink.Db.Tables.{BannedIp, Table, insert}
use wrongthink.Db.Relations.{IsUnique, IsUnique-filter, IsUnique-snoc}
use wrongthink.Db.Bans.Sound.{IsOnce-filter}
use wrongthink.Db.Bans.{
  has_ip, bans_name, fetch_tm, select_ip, delete_ip, ip_verdict, is_ip_banned, select_user,
  delete_user, ip_violation, insert_ip, user_verdict, is_user_banned,
}
use wrongthink.Db.Bans.Framing.{
  same-IsFramed, Frames, if-FramesOn, bind-Frames, execute-Frames, insert-exists,
  with_banned_users-IsFramed, with_banned_ips-IsFramed,
}

fetch_tm-Frames : (e : Engine) (o : Option ℤ) → Frames (fetch_tm e o)
fetch_tm-Frames e none db = same-IsFramed db
fetch_tm-Frames e (some expire) db = elim (Option-cases (e.load_tm expire)) [
  | inl bad ↦ rw (bad, fetch_tm) (same-IsFramed db)
  | inr (te, loaded) ↦ rw (loaded, fetch_tm) (same-IsFramed db)
]

module _ (e : Engine) where
  select_ip-Frames : (ip : String) → Frames (select_ip e ip)
  unfolding select_ip
  select_ip-Frames ip = execute-Frames _ _ (λ db. fetch_tm-Frames e _ db)

  delete_ip-Frames : (ip : String) → Frames (delete_ip ip)
  unfolding delete_ip
  delete_ip-Frames ip = execute-Frames _ _ (λ db. with_banned_ips-IsFramed db _ refl (λ v. record {
    once = v.once;
    accounts = v.accounts;
    addresses =
        IsUnique-filter (λ (b : BannedIp). b.ip) (λ b. not (has_ip ip b)) db.banned_ips.rows
          v.addresses;
  }))

  ip_verdict-Frames : (now : ℕ) (ip : String) (found : Option ℤ) → Frames (ip_verdict now ip found)
  unfolding ip_verdict
  ip_verdict-Frames now ip none db = same-IsFramed db
  ip_verdict-Frames now ip (some te) db = elim (Bool-cases (ltb_ℤ te (pos now))) [
    | inl expired ↦
        rw expired (bind-Frames (delete_ip ip) _ (delete_ip-Frames ip) (λ u. same-IsFramed) db)
    | inr active ↦ rw active (same-IsFramed db)
  ]

  pub is_ip_banned-Frames : (now : ℕ) (ip : String) → Frames (is_ip_banned e now ip)
  unfolding is_ip_banned
  is_ip_banned-Frames now ip =
      bind-Frames (select_ip e ip) (ip_verdict now ip) (select_ip-Frames ip)
        (ip_verdict-Frames now ip)

  select_user-Frames : (uname : String) → Frames (select_user e uname)
  unfolding select_user
  select_user-Frames uname = execute-Frames _ _ (λ db. fetch_tm-Frames e _ db)

  delete_user-Frames : (uname : String) → Frames (delete_user uname)
  unfolding delete_user
  delete_user-Frames uname = execute-Frames _ _ (λ db. with_banned_users-IsFramed db _ refl (λ v.
      record {
        once = IsOnce-filter (λ b. not (bans_name uname db b)) db.banned_users.rows v.once;
        accounts = All-filter _ (λ b. not (bans_name uname db b)) db.banned_users.rows v.accounts;
        addresses = v.addresses;
      }))

  free_ip :
      (ip : String) (rows : List BannedIp)
      → ip_violation e ip rows ≡ none
      → any (has_ip ip) rows ≡ false
  unfolding ip_violation
  free_ip ip rows h = ground (arith, h)

  -- An address that is banned already is refused.
  pub inserted_address :
      (ip : String) (stored : ℤ) (t : Table BannedIp)
      → IsUnique (λ (b : BannedIp). b.ip) t.rows
      → IsUnique
          (λ (b : BannedIp). b.ip)
          (insert e
            (λ (b : BannedIp). b.entry_id)
            (λ id. record { entry_id = id; ip = ip; expire = stored })
            (ip_violation e ip t.rows)
            t).1.rows
  inserted_address ip stored t v = elim (Option-cases (ip_violation e ip t.rows)) [
    | inr (x, refused) ↦ rw refused v
    | inl free ↦
        rw free (IsUnique-snoc (λ (b : BannedIp). b.ip) t.rows _ (free_ip ip t.rows free) v)
  ]

  insert_ip-Frames : (ip : String) (date : ℤ) → Frames (insert_ip e ip date)
  unfolding insert_ip
  insert_ip-Frames ip date = execute-Frames _ _ (λ db. elim (Option-cases (e.store_tm date)) [
    | inl bad ↦ rw bad (with_banned_ips-IsFramed db _ refl (λ v. v))
    | inr (stored, good) ↦ rw good (
        with_banned_ips-IsFramed db _
          (insert-exists e (λ (b : BannedIp). b.entry_id)
            (λ id. record { entry_id = id; ip = ip; expire = stored })
            (ip_violation e ip db.banned_ips.rows) db.banned_ips)
          (λ v. record {
            once = v.once;
            accounts = v.accounts;
            addresses = inserted_address ip stored db.banned_ips v.addresses;
          }))
  ])

  user_verdict-Frames :
      (now later : ℕ) (uname ip : String) (found : Option ℤ)
      → Frames (user_verdict e now later uname ip found)
  unfolding user_verdict
  user_verdict-Frames now later uname ip none db = same-IsFramed db
  user_verdict-Frames now later uname ip (some te) db = elim (Bool-cases (ltb_ℤ te (pos now))) [
    | inl expired ↦
        rw expired
          (bind-Frames (delete_user uname) _ (delete_user-Frames uname) (λ u. same-IsFramed) db)
    | inr active ↦ rw active (
        bind-Frames (is_ip_banned e later ip) _ (is_ip_banned-Frames later ip)
          (λ banned.
            if-FramesOn (λ db. db) banned _ _ same-IsFramed
              (bind-Frames (insert_ip e ip te) _ (insert_ip-Frames ip te) (λ u. same-IsFramed)))
          db)
  ]

  pub is_user_banned-Frames :
      (now later : ℕ) (uname ip : String) → Frames (is_user_banned e now later uname ip)
  unfolding is_user_banned
  is_user_banned-Frames now later uname ip =
      bind-Frames (select_user e uname) (user_verdict e now later uname ip)
        (select_user-Frames uname) (user_verdict-Frames now later uname ip)
