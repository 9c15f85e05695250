-- ===== src/Service/Places/Rows.antt =====
-- The bodies of the loops over rows in `GetWrongthinkCommunitiesImpl` and
-- `GetWrongthinkChannelsImpl`: columns are read by position.
use wrongthink.Base.{ℕ, Bool, ◌==◌, not}
use wrongthink.Action.Outcomes.{◌>>=◌}
use wrongthink.Action.{Outcome, ok}
use wrongthink.Proto.{WrongthinkCommunity, WrongthinkChannel}
use wrongthink.Db.Cells.{Row, get_int, get_text}

-- set_anonymous and its like take an `int` as a `bool`.
abbrev pub truth : ℕ → Bool
truth n = not (n == 0)

unfoldable pub community_of_row : Row → Outcome WrongthinkCommunity
community_of_row row = do
  communityid ← get_int 0 row
  name ← get_text 1 row
  unameadmin ← get_text 5 row
  ok (record { communityid = communityid; name = name; unameadmin = unameadmin })

unfoldable pub channel_of_row : ℕ → Row → Outcome WrongthinkChannel
channel_of_row community row = do
  channelid ← get_int 0 row
  name ← get_text 1 row
  anonymous ← get_int 2 row
  unameadmin ← get_text 6 row
  ok (record {
    channelid = channelid;
    name = name;
    anonymous = truth anonymous;
    communityid = community;
    unameadmin = unameadmin;
  })
