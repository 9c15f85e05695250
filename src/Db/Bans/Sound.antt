-- ===== src/Db/Bans/Sound.antt =====
-- The integrity of the two tables of bans (DB/DBPostgres.cpp, DB/DBSQLite.cpp).
use wrongthink.Base.{
  ℕ, Bool, false, List, [], ◌∷◌, ◌++◌, map, filter, any, any-append, any-filter-false, ◌≡◌, refl,
  ◌∙◌, arith, Bool-cases, inl, inr,
}
use wrongthink.Base.Int.{ℤ}
use wrongthink.Db.Tables.{User, BannedUser, BannedIp}
use wrongthink.Db.Users.{has_id}
use wrongthink.Db.Relations.{IsUnique, Refers, Refers-grow}
use wrongthink.Db.Bans.{bans_id, extended}
use wrongthink.Db.Bans.Rows.{extended-any, user_id-extended}

-- No account has two bans.
abbrev pub IsOnce : List BannedUser → Type 0
IsOnce [] = Unit {0}
IsOnce (b ∷ bs) = (any (bans_id b.user_id) bs ≡ false) × IsOnce bs

abbrev pub BanAccounts : List BannedUser → List User → Type 0
BanAccounts bans users = Refers (λ (b : BannedUser). b.user_id) has_id bans users

-- A ban is of an account, each account has one at most, and so has each address.
pub record HasSoundBans (users : List User) (bans : List BannedUser) (ips : List BannedIp)
    : Type 0 where
  pub once : IsOnce bans
  pub accounts : BanAccounts bans users
  pub addresses : IsUnique (λ (b : BannedIp). b.ip) ips

pub grown-HasSoundBans :
    (users more : List User) (bans : List BannedUser) (ips : List BannedIp)
    → HasSoundBans users bans ips
    → HasSoundBans (users ++ more) bans ips
grown-HasSoundBans users more bans ips v = record {
  once = v.once;
  accounts = Refers-grow (λ (b : BannedUser). b.user_id) has_id bans users more v.accounts;
  addresses = v.addresses;
}

pub IsOnce-filter :
    (p : BannedUser → Bool) (bs : List BannedUser) → IsOnce bs → IsOnce (filter p bs)
unfolding filter
IsOnce-filter p [] h = tt
IsOnce-filter p (b ∷ bs) h = elim (Bool-cases (p b)) [
  | inl kept ↦ rw kept (any-filter-false _ p bs h.0, IsOnce-filter p bs h.1)
  | inr gone ↦ rw gone (IsOnce-filter p bs h.1)
]

pub IsOnce-snoc :
    (bs : List BannedUser) (b : BannedUser)
    → any (bans_id b.user_id) bs ≡ false
    → IsOnce bs
    → IsOnce (bs ++ b ∷ [])
unfolding any
IsOnce-snoc [] b h o = (refl, tt)
IsOnce-snoc (c ∷ bs) b h o = (
  rw (any-append (bans_id c.user_id) bs (b ∷ []), o.0) (ground (arith, h)),
  IsOnce-snoc bs b (ground (arith, h)) o.1,
)

module _ (uid : ℕ) (expire : ℤ) where
  pub IsOnce-extended : (bs : List BannedUser) → IsOnce bs → IsOnce (map (extended uid expire) bs)
  IsOnce-extended [] o = tt
  IsOnce-extended (b ∷ bs) o = (
    rw (user_id-extended uid uid expire b) (extended-any uid b.user_id expire bs ∙ o.0),
    IsOnce-extended bs o.1,
  )

  pub BanAccounts-extended :
      (bs : List BannedUser) (us : List User)
      → BanAccounts bs us
      → BanAccounts (map (extended uid expire) bs) us
  BanAccounts-extended [] us h = tt
  BanAccounts-extended (b ∷ bs) us h =
      (rw (user_id-extended uid uid expire b) h.0, BanAccounts-extended bs us h.1)
