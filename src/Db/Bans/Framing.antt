-- ===== src/Db/Bans/Framing.antt =====
-- Actions that leave all tables but those of bans alone (DB/DBPostgres.cpp): how they compose.
use wrongthink.Base.{
  ℕ, Bool, true, false, Option, none, some, ◌≡◌, refl, ◌∙◌, inl, inr, if◌then◌else◌,
}
use wrongthink.Action.{Action, Exception, Outcome, ok, thrown, and_then, ◌>>=◌}
use wrongthink.Db.Engine.{Engine}
use wrongthink.Db.Tables.{BannedUser, BannedIp, Table, Db, insert}
use wrongthink.Db.Sql.{Statement, execute}
use wrongthink.Db.Sql.Statements.{execute-cases}
use wrongthink.Db.Bans.Sound.{HasSoundBans}

-- Only the two tables of bans may differ; they are still there if they were, and sound.
pub record IsFramed (before after : Db) : Type 0 where
  pub users : after.users ≡ before.users
  pub banned_users : after.banned_users.exists ≡ before.banned_users.exists
  pub banned_ips : after.banned_ips.exists ≡ before.banned_ips.exists
  pub communities : after.communities ≡ before.communities
  pub channels : after.channels ≡ before.channels
  pub message : after.message ≡ before.message
  pub control_message : after.control_message ≡ before.control_message
  pub sound :
      HasSoundBans before.users.rows before.banned_users.rows before.banned_ips.rows
      → HasSoundBans after.users.rows after.banned_users.rows after.banned_ips.rows

pub same-IsFramed : (db : Db) → IsFramed db db
same-IsFramed db = record {
  users = refl;
  banned_users = refl;
  banned_ips = refl;
  communities = refl;
  channels = refl;
  message = refl;
  control_message = refl;
  sound = λ v. v;
}

pub then-IsFramed : {a b c : Db} → IsFramed a b → IsFramed b c → IsFramed a c
then-IsFramed f g = record {
  users = g.users ∙ f.users;
  banned_users = g.banned_users ∙ f.banned_users;
  banned_ips = g.banned_ips ∙ f.banned_ips;
  communities = g.communities ∙ f.communities;
  channels = g.channels ∙ f.channels;
  message = g.message ∙ f.message;
  control_message = g.control_message ∙ f.control_message;
  sound = λ v. g.sound (f.sound v);
}

-- An action on a state with a database in it, which leaves the other tables alone.
abbrev pub FramesOn : {S A : Type 0} → (S → Db) → Action S A → Type 0
FramesOn {S} db m = (s : S) → IsFramed (db s) (db (m s).1)

abbrev pub Frames : {A : Type 0} → Action Db A → Type 0
Frames m = FramesOn (λ db. db) m

module _ {S A B : Type 0} (db : S → Db) where
  and_then-IsFramed :
      (s : S) (f : A → Action S B) (p : Outcome A × S)
      → IsFramed (db s) (db p.1)
      → ((a : A) → FramesOn db (f a))
      → IsFramed (db s) (db (and_then f p).1)
  and_then-IsFramed s f (ok a, after) h k = then-IsFramed h (k a after)
  and_then-IsFramed s f (thrown x, after) h k = h

  pub bind-FramesOn :
      (m : Action S A) (f : A → Action S B)
      → FramesOn db m
      → ((a : A) → FramesOn db (f a))
      → FramesOn db (m >>= f)
  bind-FramesOn m f h k s = and_then-IsFramed s f (m s) (h s) k

pub if-FramesOn :
    {S A : Type 0} (db : S → Db) (b : Bool) (m k : Action S A)
    → FramesOn db m
    → FramesOn db k
    → FramesOn db (if b then m else k)
if-FramesOn db true m k h g = h
if-FramesOn db false m k h g = g

pub bind-Frames :
    {A B : Type 0} (m : Action Db A) (f : A → Action Db B)
    → Frames m
    → ((a : A) → Frames (f a))
    → Frames (m >>= f)
bind-Frames m f h k = bind-FramesOn (λ db. db) m f h k

pub execute-Frames :
    {A : Type 0} (s : Statement) (body : Action Db A) → Frames body → Frames (execute s body)
execute-Frames s body h db = elim (execute-cases s body db) [
  | inl same ↦ rw same (h db)
  | inr (x, same) ↦ rw same (same-IsFramed db)
]

pub insert-exists :
    {R : Type 0} (e : Engine) (key : R → ℕ) (row : ℕ → R) (violation : Option Exception)
    (t : Table R)
    → (insert e key row violation t).1.exists ≡ t.exists
insert-exists e key row none t = refl
insert-exists e key row (some x) t = refl

pub with_banned_users-IsFramed :
    (db : Db) (t : Table BannedUser)
    → t.exists ≡ db.banned_users.exists
    → (HasSoundBans db.users.rows db.banned_users.rows db.banned_ips.rows
        → HasSoundBans db.users.rows t.rows db.banned_ips.rows)
    → IsFramed db (record db { banned_users = t })
with_banned_users-IsFramed db t h k = record {
  users = refl;
  banned_users = h;
  banned_ips = refl;
  communities = refl;
  channels = refl;
  message = refl;
  control_message = refl;
  sound = k;
}

pub with_banned_ips-IsFramed :
    (db : Db) (t : Table BannedIp)
    → t.exists ≡ db.banned_ips.exists
    → (HasSoundBans db.users.rows db.banned_users.rows db.banned_ips.rows
        → HasSoundBans db.users.rows db.banned_users.rows t.rows)
    → IsFramed db (record db { banned_ips = t })
with_banned_ips-IsFramed db t h k = record {
  users = refl;
  banned_users = refl;
  banned_ips = h;
  communities = refl;
  channels = refl;
  message = refl;
  control_message = refl;
  sound = k;
}
