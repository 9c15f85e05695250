-- ===== src/Db/Bans/Effects.antt =====
-- What `banUser` can change: the rows and the sequence of one table (DB/DBPostgres.cpp).
use wrongthink.Db.Relations.{Refers-snoc}
use wrongthink.Db.Bans.Sound.{HasSoundBans, IsOnce-extended, IsOnce-snoc, BanAccounts-extended}
use wrongthink.Base.{
  ℕ, String, any, any-find?, ==_refl, find?, ◌≡◌, refl, ap, ◌∙◌, Bool-cases, Option-cases, inl, inr,
}
use wrongthink.Base.Int.{ℤ, pos}
use wrongthink.Action.{Outcome}
use wrongthink.Db.Engine.{Engine}
use wrongthink.Db.Tables.{BannedUser, Table, Db}
use wrongthink.Db.Sql.Schema.{IsReady}
use wrongthink.Db.Users.{named, has_id}
use wrongthink.Db.Bans.{bans_id, ban_user, ban_offset}
use wrongthink.Db.Bans.Writes.{
  with_extended, with_ban, extend_ban_overflow, insert_ban_overflow, ban_user_unknown,
  ban_user_again, ban_user_first, ban_user_extends, ban_user_inserts,
}

abbrev pub with_bans : Table BannedUser → Db → Db
with_bans t db = record db { banned_users = t }

-- The database is as it was but for the bans of accounts, whose table is still there, and sound.
pub record IsBansOnly (db after : Db) : Type 0 where
  pub bans : Table BannedUser
  pub there : bans.exists ≡ db.banned_users.exists
  pub same : after ≡ with_bans bans db
  pub sound :
      HasSoundBans db.users.rows db.banned_users.rows db.banned_ips.rows
      → HasSoundBans db.users.rows bans.rows db.banned_ips.rows

state :
    {after : Db} {r : Outcome (Unit {0})} {x : Outcome (Unit {0}) × Db}
    → x ≡ (r, after)
    → x.1 ≡ after
state h = ap (λ (p : Outcome (Unit {0}) × Db). p.1) h

module _ (e : Engine) (now : ℕ) (uname : String) (days : ℤ) (db : Db) (ready : IsReady db) where
  pub ban_user-IsBansOnly : IsBansOnly db (ban_user e now uname days db).1
  ban_user-IsBansOnly = elim (Option-cases (find? (named uname) db.users.rows)) [
    | inl nobody ↦ record {
      bans = db.banned_users;
      there = refl;
      same = state (ban_user_unknown e now uname days db ready nobody);
      sound = λ v. v;
    }
    | inr (u, found) ↦ elim (Option-cases (e.int_add (pos now) (ban_offset days))) [
      | inl sum ↦ elim (Bool-cases (any (bans_id u.user_id) db.banned_users.rows)) [
        | inl banned ↦ record {
          bans = db.banned_users;
          there = refl;
          same = state (
              ban_user_again e now uname days db ready u found banned
              ∙ extend_ban_overflow e now u.user_id (ban_offset days) db ready sum);
          sound = λ v. v;
        }
        | inr free ↦ record {
          bans = record db.banned_users { sequence = e.after_failure db.banned_users.sequence };
          there = refl;
          same = state (
              ban_user_first e now uname days db ready u found free
              ∙ insert_ban_overflow e now u.user_id (ban_offset days) db ready sum);
          sound = λ v. v;
        }
      ]
      | inr (expire, sum) ↦ elim (Bool-cases (any (bans_id u.user_id) db.banned_users.rows)) [
        | inl banned ↦ record {
          bans = (with_extended u.user_id expire db).banned_users;
          there = refl;
          same = state (ban_user_extends e now uname days db ready u found expire sum banned);
          sound = λ v. record {
            once = IsOnce-extended u.user_id expire db.banned_users.rows v.once;
            accounts =
                BanAccounts-extended u.user_id expire db.banned_users.rows db.users.rows v.accounts;
            addresses = v.addresses;
          };
        }
        | inr free ↦ record {
          bans = (with_ban e u.user_id expire db).banned_users;
          there = refl;
          same = state (ban_user_inserts e now uname days db ready u found expire sum free);
          sound = λ v. record {
            once = IsOnce-snoc db.banned_users.rows _ free v.once;
            accounts =
                Refers-snoc (λ (b : BannedUser). b.user_id) has_id db.banned_users.rows _
                  db.users.rows
                  (any-find? (named uname) (has_id u.user_id) u db.users.rows found
                    (==_refl u.user_id))
                  v.accounts;
            addresses = v.addresses;
          };
        }
      ]
    ]
  ]
