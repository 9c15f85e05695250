-- ===== src/Db/Bans/Threads/Backed.antt =====
-- What a call of `banUser` has established (DB/DBPostgres.cpp, DB/DBSQLite.cpp), and why the
-- statements of other calls do not undo it.
use wrongthink.Base.{
  ℕ, String, Bool, true, false, some, any, find?, ◌≡◌, sym, ap, ◌∙◌, ◌⊎◌, inl, inr,
}
use wrongthink.Action.{user_not_found, out_of_range}
use wrongthink.Db.Tables.{User, BannedUser, Table, Db}
use wrongthink.Db.Sql.Schema.{IsReady}
use wrongthink.Db.Users.{named, has_id}
use wrongthink.Db.Bans.{bans_id}
use wrongthink.Db.Bans.Sound.{BanAccounts}
use wrongthink.Db.Bans.Effects.{with_bans}
use wrongthink.Db.Bans.Banning.{bans_of}
use wrongthink.Db.Bans.Threads.{Banning, finding, checking, extending, inserting, banned, failed}

abbrev pub has_account : ℕ → Db → Bool
has_account uid db = any (has_id uid) db.users.rows

abbrev pub has_ban : ℕ → Db → Bool
has_ban uid db = any (bans_id uid) db.banned_users.rows

-- The account is there, and is not spared.
abbrev pub IsTarget : (ℕ → Bool) → Db → ℕ → Type 0
IsTarget spared db uid = (has_account uid db ≡ true) × (spared uid ≡ false)

-- What a call has established: that the account it has found is there and, before it extends a ban
-- or when it has returned, that the account has a ban. It fails with one of two exceptions.
abbrev pub IsBacked : (ℕ → Bool) → Db → Banning → Type 0
IsBacked spared db (finding uname _) =
    (u : User) → find? (named uname) db.users.rows ≡ some u → spared u.user_id ≡ false
IsBacked spared db (checking uid _) = IsTarget spared db uid
IsBacked spared db (extending uid _) = IsTarget spared db uid × (has_ban uid db ≡ true)
IsBacked spared db (inserting uid _) = IsTarget spared db uid
IsBacked spared db (banned uid) = has_ban uid db ≡ true
IsBacked spared db (failed x) = (x ≡ user_not_found) ⊎ (x ≡ out_of_range)

-- The schema is complete, the accounts are those of `before`, every ban is of one, and those that
-- are spared have the bans of `before`.
pub record IsGood (spared : ℕ → Bool) (before : Db) (db : Db) : Type 0 where
  pub ready : IsReady db
  pub people : db.users.rows ≡ before.users.rows
  pub accounts : BanAccounts db.banned_users.rows db.users.rows
  pub kept : (j : ℕ) → spared j ≡ true → bans_of j db ≡ bans_of j before

-- Only the table of bans changes, and no account loses its last ban.
pub record IsLater (s t : Db) : Type 0 where
  pub bans : Table BannedUser
  pub exists : bans.exists ≡ s.banned_users.exists
  pub same : t ≡ with_bans bans s
  pub still : (j : ℕ) → has_ban j s ≡ true → has_ban j t ≡ true

-- No account is gone, none loses its last ban, and a name stands for an account that it stood for
-- before, or for one that is not spared.
pub record IsGrown (spared : ℕ → Bool) (s t : Db) : Type 0 where
  pub there : (uid : ℕ) → has_account uid s ≡ true → has_account uid t ≡ true
  pub aimed :
      (uname : String) (u : User)
      → find? (named uname) t.users.rows ≡ some u
      → (find? (named uname) s.users.rows ≡ some u) ⊎ (spared u.user_id ≡ false)
  pub still : (j : ℕ) → has_ban j s ≡ true → has_ban j t ≡ true

pub later-IsGrown : (spared : ℕ → Bool) (s t : Db) → IsLater s t → IsGrown spared s t
later-IsGrown spared s t l = record {
  there = λ uid h. ap (λ db. any (has_id uid) db.users.rows) l.same ∙ h;
  aimed = λ uname u found. inl (sym (ap (λ db. find? (named uname) db.users.rows) l.same) ∙ found);
  still = l.still;
}

module _ (spared : ℕ → Bool) (s t : Db) (l : IsGrown spared s t) where
  IsTarget-later : (uid : ℕ) → IsTarget spared s uid → IsTarget spared t uid
  IsTarget-later uid (known, aimed) = (l.there uid known, aimed)

  pub IsBacked-later : (p : Banning) → IsBacked spared s p → IsBacked spared t p
  IsBacked-later (finding uname days) h =
      λ u found. elim (l.aimed uname u found) [ inl before ↦ h u before | inr aimed ↦ aimed ]
  IsBacked-later (checking uid days) h = IsTarget-later uid h
  IsBacked-later (extending uid days) (h, has) = (IsTarget-later uid h, l.still uid has)
  IsBacked-later (inserting uid days) h = IsTarget-later uid h
  IsBacked-later (banned uid) h = l.still uid h
  IsBacked-later (failed x) h = h
