-- ===== src/Service.antt =====
-- WrongthinkServiceImpl.h and WrongthinkServiceImpl.cpp: the state of the service, its map of live
-- channels, and what the handlers share. The handlers are in the modules below.
pub mod Accounts
pub mod Places
pub mod Messaging
pub mod Cache
pub mod Joins
pub mod Shuffles
pub mod Soundness
use wrongthink.Base.{
  ℕ, suc, Bool, true, false, Option, none, some, List, [], ◌∷◌, ◌++◌, ◌==◌, find?, any, get_elem?,
  length, if◌then◌else◌,
}
use wrongthink.Action.{Action, Outcome, ok, thrown, pure, ◌>>=◌, ◌>>◌}
use wrongthink.Proto.{Status, ok_status, internal_status}
use wrongthink.Channel.{SynchronizedChannel, default_channel, of_name}
use wrongthink.Db.Engine.{Engine, Indicator, i_ok, i_null}
use wrongthink.Db.Tables.{Db}
use wrongthink.Db.Cells.{Row}
use wrongthink.Db.Channels.{NameRow, get_channel_row}

-- std::map<int, SynchronizedChannel>, as a list of its entries.
abbrev pub ChannelMap : Type 0
ChannelMap = List (ℕ × SynchronizedChannel)

pub record Service : Type 0 where
  pub db : Db
  pub channel_map : ChannelMap

abbrev pub on_db : {A : Type 0} → Action Db A → Action Service A
on_db m s = let (r, db') = m s.db in (r, record s { db = db' })

abbrev pub at_key : ℕ → ℕ × SynchronizedChannel → Bool
at_key id (k, c) = id == k

-- channelMap.count(id) == 1
abbrev pub is_live : ℕ → ChannelMap → Bool
is_live id m = any (at_key id) m

unfoldable pub live_channel : ℕ → ChannelMap → Option SynchronizedChannel
live_channel id [] = none
live_channel id ((k, c) ∷ m) = if id == k then some c else live_channel id m

-- `f(channelMap[id])`: a missing entry is default-constructed first.
unfoldable pub update_channel :
    ℕ → (SynchronizedChannel → SynchronizedChannel) → ChannelMap → ChannelMap
update_channel id f [] = (id, f default_channel) ∷ []
update_channel id f ((k, c) ∷ m) = if id == k then (k, f c) ∷ m else (k, c) ∷ update_channel id f m

-- channelMap.emplace(id, …), of a key that is not there
abbrev pub emplace : ℕ → SynchronizedChannel → ChannelMap → ChannelMap
emplace id c m = m ++ (id, c) ∷ []

abbrev pub is_null : Indicator → Bool
is_null i_ok = false
is_null i_null = true

unfoldable pub emplace_row : ℕ → NameRow → Action Service Bool
emplace_row id r s =
    if is_null r.indicator
    then (ok false, s)
    else (ok true, record s { channel_map = emplace id (of_name id r.name) s.channel_map })

unfoldable pub check_for_channel : Engine → ℕ → Action Service Bool
unfolding emplace_row
check_for_channel e id s =
    if is_live id s.channel_map
    then (ok true, s)
    else (do r ← on_db (get_channel_row e id); emplace_row id r) s

-- `catch (const std::exception&) { …; return Status(INTERNAL, ""); }`, around a body that sets the
-- response last.
abbrev pub answered : {A R S : Type 0} → R → (A → R) → Outcome A × S → Status × R × S
answered untouched respond (ok a, s) = (ok_status, respond a, s)
answered untouched respond (thrown x, s) = (internal_status, untouched, s)

-- The same around a body that returns a status.
abbrev pub caught : {S : Type 0} → Outcome Status × S → Status × S
caught (ok status, s) = (status, s)
caught (thrown x, s) = (internal_status, s)

-- The same around a body that returns a status and has filled in the response.
abbrev pub caught_with : {R S : Type 0} → R → Outcome (Status × R) × S → Status × R × S
caught_with untouched (ok r, s) = (r.0, r.1, s)
caught_with untouched (thrown x, s) = (internal_status, untouched, s)

-- The loop over a rowset: one message is written for each row, until reading a row throws.
unfoldable pub write_rows :
    {M : Type 0} → (Row → Outcome M) → List Row → List M × Outcome (Unit {0})
write_rows read [] = ([], ok tt)
write_rows read (r ∷ rs) =
    let rest = write_rows read rs in
    elim (read r) [ ok m ↦ (m ∷ rest.0, rest.1) | thrown x ↦ ([], thrown x) ]

abbrev pub status_of : Outcome (Unit {0}) → Status
status_of (ok u) = ok_status
status_of (thrown x) = internal_status

-- A handler that streams a rowset, with its `catch`.
abbrev pub streamed :
    {M S : Type 0} → (Row → Outcome M) → Outcome (List Row) × S → Status × List M × S
streamed read (ok rows, s) = let (written, r) = write_rows read rows in (status_of r, written, s)
streamed read (thrown x, s) = (internal_status, [], s)

-- ServerReaderWrapper and ServerWriterWrapper as the tests build them (`#ifdef GTEST`): a list, and
-- a position in it.
pub record ReaderWrapper (M : Type 0) : Type 0 where
  pub obj_list : List M
  pub pos : ℕ

abbrev pub read_next : {M : Type 0} → ReaderWrapper M → Option M → Option M × ReaderWrapper M
read_next r none = (none, r)
read_next r (some m) = (some m, record r { pos = suc r.pos })

-- Read: `none` where the source returns false.
unfoldable pub read : {M : Type 0} → ReaderWrapper M → Option M × ReaderWrapper M
read r = read_next r (get_elem? r.obj_list r.pos)
