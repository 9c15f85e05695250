-- ===== src/Server/Threads/Tables.antt =====
-- What a statement of a thread leaves in the tables (DB/DBPostgres.cpp): `createUser`, `banUser`,
-- `isUserBanned` and `isIPBanned`.
use mathlib.Core.Path.{subst}
use mathlib.Core.List.{map-append}
use wrongthink.Base.{
  ℕ, true, List, Grown, not_grown, any-Grown, ◌++◌, map, any, ◌≡◌, refl, ap, ◌∙◌, arith, All-map,
  Option-cases, inl, inr,
}
use wrongthink.Concurrent.{IsStepped}
use wrongthink.Channel.{SynchronizedChannel}
use wrongthink.Db.Engine.{Engine, IssuesFreshIds}
use wrongthink.Db.Tables.{User, BannedUser, BannedIp, Table, Db}
use wrongthink.Db.Sql.Schema.{IsReady}
use wrongthink.Db.Relations.{Refers-grow}
use wrongthink.Db.Users.{has_id, user_violation}
use wrongthink.Db.Users.Accounts.{
  count_admins_ready, user_id_by_name_ready, insert_user_row_accepted, insert_user_row_refused,
  with_user-IsReady,
}
use wrongthink.Db.Users.Threads as Users
use wrongthink.Db.Users.Threads.{Creating, counting, inserting, selecting}
use wrongthink.Db.Users.Threads.Interleaved.{IsAdministered}
use wrongthink.Db.Channels.{has_channel_id}
use wrongthink.Db.Bans.{bans_id}
use wrongthink.Db.Bans.Sound.{BanAccounts}
use wrongthink.Db.Bans.Effects.{with_bans}
use wrongthink.Db.Bans.Threads.Backed.{has_ban}
use wrongthink.Db.Bans.Lookups as Lookups
use wrongthink.Db.Bans.Lookups.{Looking}
use wrongthink.Db.Bans.Lookups.Effects.{advance-IsIpsOnly}
use wrongthink.Service.{Service}
use wrongthink.Service.Messaging.Posted.{post_of}
use wrongthink.Service.Messaging.Threads.Backed.{IsLater}
use wrongthink.Service.Soundness.{IsSoundWith, rebanned, rebanned-IsReady, rebanned-IsSound}
use wrongthink.Service.Soundness.Inserts.{with_user-IsSound, refused_user-IsSound}
use wrongthink.Server.Threads.{Serving, on_service}
use wrongthink.Server.Threads.Backed.{HasLooseBans, IsWorking, IsBacked}

abbrev pub IsSoundly : Db → Type 0
IsSoundly db = IsSoundWith HasLooseBans db

-- A statement that was run on `db` left sound tables, and took no account, place, ban or message
-- away.
pub record IsRun (db after : Db) : Type 0 where
  pub ready : IsReady after
  pub sound : IsSoundly after
  pub administered : IsAdministered after.users.rows
  pub users : Grown db.users.rows after.users.rows
  pub communities : Grown db.communities.rows after.communities.rows
  pub channels : Grown db.channels.rows after.channels.rows
  pub messages : Grown db.message.rows after.message.rows
  pub still : (uid : ℕ) → has_ban uid db ≡ true → has_ban uid after ≡ true

-- A thread that has run a statement.
pub on_service-IsStepped :
    {P : Type 0} (f : P → Serving) (s : Service) (r : P × Db)
    → IsWorking s
    → IsRun s.db r.1
    → IsBacked (record s { db = r.1 }) (f r.0)
    → IsStepped IsWorking IsBacked IsLater s (on_service f s r)
on_service-IsStepped f s (p, after) v run backed = record {
  good = record {
    served = record {
      serving = record {
        ready = run.ready;
        coherent =
            All-map _ _
              (λ (c : ℕ × SynchronizedChannel) h.
                any-Grown (has_channel_id c.0) s.db.channels.rows after.channels.rows run.channels
                  h)
              s.channel_map v.served.serving.coherent;
      };
      sound = run.sound;
    };
    administered = run.administered;
  };
  backed = backed;
  later = record {
    users = run.users;
    communities = run.communities;
    channels = run.channels;
    still = run.still;
    stored = (map post_of run.messages.0, ap (map post_of) run.messages.1 ∙ map-append post_of _ _);
    handed = λ j. not_grown _;
  };
}

pub nothing-IsRun :
    (db : Db) → IsReady db → IsSoundly db → IsAdministered db.users.rows → IsRun db db
nothing-IsRun db ready sound administered = record {
  ready = ready;
  sound = sound;
  administered = administered;
  users = not_grown _;
  communities = not_grown _;
  channels = not_grown _;
  messages = not_grown _;
  still = λ uid h. h;
}

module _ (db : Db) (ready : IsReady db) (sound : IsSoundly db)
    (administered : IsAdministered db.users.rows) where
  -- Other bans, on the same tables.
  rebanned-IsRun :
      (t : Table BannedUser) (i : Table BannedIp)
      → t.exists ≡ db.banned_users.exists
      → i.exists ≡ db.banned_ips.exists
      → HasLooseBans db.users.rows t.rows i.rows
      → ((uid : ℕ)
          → any (bans_id uid) db.banned_users.rows ≡ true
          → any (bans_id uid) t.rows ≡ true)
      → IsRun db (rebanned t i db)
  rebanned-IsRun t i there thei bans still = record {
    ready = rebanned-IsReady t i db ready there thei;
    sound = rebanned-IsSound t i db sound bans;
    administered = administered;
    users = not_grown _;
    communities = not_grown _;
    channels = not_grown _;
    messages = not_grown _;
    still = still;
  }

  pub banned-IsRun :
      (after : Db) (t : Table BannedUser)
      → t.exists ≡ db.banned_users.exists
      → after ≡ with_bans t db
      → BanAccounts after.banned_users.rows after.users.rows
      → ((uid : ℕ) → has_ban uid db ≡ true → has_ban uid after ≡ true)
      → IsRun db after
  banned-IsRun after t there same accounts still = rw same (
      rebanned-IsRun t db.banned_ips there refl
        (record {
          accounts = subst (λ d. BanAccounts d.banned_users.rows d.users.rows) same accounts;
          addresses = sound.bans.addresses;
        })
        (λ uid h. subst (λ d. has_ban uid d ≡ true) same (still uid h)))

  -- The interceptor's statements.
  pub looking-IsRun : (e : Engine) (now : ℕ) (p : Looking) → IsRun db (Lookups.advance e now p db).1
  looking-IsRun e now p =
      let effect = advance-IsIpsOnly e now p db ready in
      rw (effect.same) (
        rebanned-IsRun db.banned_users effect.ips refl effect.there
          (record {
            accounts = sound.bans.accounts;
            addresses = effect.addresses sound.bans.addresses;
          })
          (λ uid h. h))

  loose_grown :
      (us more : List User) (bans : List BannedUser) (ips : List BannedIp)
      → HasLooseBans us bans ips
      → HasLooseBans (us ++ more) bans ips
  loose_grown us more bans ips h = record {
    accounts = Refers-grow (λ (b : BannedUser). b.user_id) has_id bans us more h.accounts;
    addresses = h.addresses;
  }

  module _ (e : Engine) (fresh : IssuesFreshIds e) where
    pub creating-IsRun :
        (p : Creating)
        → IsAdministered (Users.advance e p db).1.users.rows
        → IsRun db (Users.advance e p db).1
    unfolding Users.advance
    creating-IsRun (counting uname token admin) h =
        rw (count_admins_ready db ready) (nothing-IsRun db ready sound administered)
    creating-IsRun (selecting uname admin) h =
        rw (user_id_by_name_ready db ready uname) (nothing-IsRun db ready sound administered)
    creating-IsRun (Creating.answered uname uid admin) h = nothing-IsRun db ready sound administered
    creating-IsRun (Creating.failed x) h = nothing-IsRun db ready sound administered
    creating-IsRun (inserting uname token admin) h =
        elim (Option-cases (user_violation e uname token db.users.rows)) [
          | inl free ↦
              let row = insert_user_row_accepted e uname token admin db ready free in
              rw row (record {
                ready = with_user-IsReady e uname token admin db ready;
                sound = with_user-IsSound e fresh db sound loose_grown uname token admin free;
                administered = rw row at h;
                users = (_, refl);
                communities = not_grown _;
                channels = not_grown _;
                messages = not_grown _;
                still = λ uid h. h;
              })
          | inr (x, refused) ↦
              rw (insert_user_row_refused e uname token admin db ready x refused) (record {
                ready = ground (arith, ready);
                sound = refused_user-IsSound e fresh db sound x;
                administered = administered;
                users = not_grown _;
                communities = not_grown _;
                channels = not_grown _;
                messages = not_grown _;
                still = λ uid h. h;
              })
        ]
