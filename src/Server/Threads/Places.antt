-- ===== src/Server/Threads/Places.antt =====
-- The steps of threads that create channels and communities (DB/DBPostgres.cpp).
use wrongthink.Base.{ℕ, String, Bool, not_grown, refl, arith, Option-cases, inl, inr}
use wrongthink.Db.Engine.{Engine}
use wrongthink.Db.Tables.{Db}
use wrongthink.Db.Sql.Schema.{IsReady}
use wrongthink.Db.Channels.{channel_violation, community_violation}
use wrongthink.Db.Channels.Creation.{
  insert_channel_row_accepted, insert_channel_row_refused, insert_community_row_accepted,
  insert_community_row_refused, find-with_channel, find-with_community, select_channel_id_ready,
  select_community_ready,
}
use wrongthink.Db.Channels.Threads.{
  Making, inserting_channel, selecting_channel, made_channel, inserting_community,
  selecting_community, made_community, failed, advance,
}
use wrongthink.Db.Users.Threads.Interleaved.{IsAdministered}
use wrongthink.Service.Soundness.Inserts.{
  with_channel-IsSound, refused_channel-IsSound, with_community-IsSound, refused_community-IsSound,
}
use wrongthink.Service.Soundness.Handlers.{IsReliable}
use wrongthink.Server.Threads.Backed.{IsMade}
use wrongthink.Server.Threads.Tables.{IsSoundly, IsRun, nothing-IsRun}

-- The statement leaves sound tables, and the call what it has established.
abbrev pub Makes : Db → Making × Db → Type 0
Makes db r = IsRun db r.1 × IsMade r.1 r.0

module _ (e : Engine) (reliable : IsReliable e) (db : Db) (ready : IsReady db)
    (sound : IsSoundly db) (administered : IsAdministered db.users.rows) where
  same_tables : (p : Making) → IsMade db p → Makes db (p, db)
  same_tables p made = (nothing-IsRun db ready sound administered, made)

  insert_channel_step :
      (name : String) (community admin_id : ℕ) (anonymous : Bool)
      → Makes db (advance e (inserting_channel name community admin_id anonymous) db)
  unfolding advance
  insert_channel_step name community admin_id anonymous =
      elim (Option-cases (channel_violation e name community admin_id db)) [
        | inl free ↦
            rw (insert_channel_row_accepted e name community admin_id anonymous db ready free) (
              record {
                ready = ground (arith, ready);
                sound =
                    with_channel-IsSound e reliable.fresh db sound ready reliable.enforced name
                      community admin_id anonymous free;
                administered = administered;
                users = not_grown _;
                communities = not_grown _;
                channels = (_, refl);
                messages = not_grown _;
                still = λ uid h. h;
              },
              (_, find-with_channel e name community admin_id anonymous db ready free, tt),
            )
        | inr (x, refused) ↦
            rw (insert_channel_row_refused e name community admin_id anonymous db ready x refused) (
              record {
                ready = ground (arith, ready);
                sound = refused_channel-IsSound e reliable.fresh db sound x;
                administered = administered;
                users = not_grown _;
                communities = not_grown _;
                channels = not_grown _;
                messages = not_grown _;
                still = λ uid h. h;
              },
              tt,
            )
      ]

  insert_community_step :
      (name : String) (admin : ℕ) (pub_flag : Bool) (garbage : ℕ)
      → Makes db (advance e (inserting_community name admin pub_flag garbage) db)
  unfolding advance
  insert_community_step name admin pub_flag garbage =
      elim (Option-cases (community_violation e name admin db)) [
        | inl free ↦ rw (insert_community_row_accepted e name admin pub_flag db ready free) (
          record {
            ready = ground (arith, ready);
            sound =
                with_community-IsSound e reliable.fresh db sound ready reliable.enforced name admin
                  pub_flag free;
            administered = administered;
            users = not_grown _;
            communities = (_, refl);
            channels = not_grown _;
            messages = not_grown _;
            still = λ uid h. h;
          },
          (_, find-with_community e name admin pub_flag db ready free, tt),
        )
        | inr (x, refused) ↦
            rw (insert_community_row_refused e name admin pub_flag db ready x refused) (
              record {
                ready = ground (arith, ready);
                sound = refused_community-IsSound e reliable.fresh db sound x;
                administered = administered;
                users = not_grown _;
                communities = not_grown _;
                channels = not_grown _;
                messages = not_grown _;
                still = λ uid h. h;
              },
              tt,
            )
      ]

  pub making-Makes : (p : Making) → IsMade db p → Makes db (advance e p db)
  unfolding advance
  making-Makes (inserting_channel name community admin_id anonymous) made =
      insert_channel_step name community admin_id anonymous
  making-Makes (selecting_channel name) (c, found, h) =
      rw (select_channel_id_ready name db ready, found)
        (nothing-IsRun db ready sound administered, (c, refl, refl))
  making-Makes (made_channel name id) made = same_tables (made_channel name id) made
  making-Makes (inserting_community name admin pub_flag garbage) made =
      insert_community_step name admin pub_flag garbage
  making-Makes (selecting_community name garbage) (c, found, h) =
      rw (select_community_ready name db ready, found)
        (nothing-IsRun db ready sound administered, (c, refl, refl))
  making-Makes (made_community name id) made = same_tables (made_community name id) made
  making-Makes (failed x) made = same_tables (failed x) made
