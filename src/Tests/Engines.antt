-- ===== src/Tests/Engines.antt =====
-- The two backends as values of `Engine`, on which DB/DBPostgres.cpp and DB/DBSQLite.cpp run. What
-- SOCI makes of an `int` column and a `std::tm` it does not document: here the one is the time that
-- the other counts.
use Prim.Native.String.{count}
use wrongthink.Base.{suc, leb, ◌^◌, true, false, Option, none, some, if◌then◌else◌, arith}
use wrongthink.Base.Int.{ℤ, pos, ltb_ℤ, ◌+ℤ◌}
use wrongthink.Db.Engine.{Engine, IssuesFreshIds, i_null}

-- Sums of `int` columns in PostgreSQL are refused above 2 ^ 31 - 1.
abbrev pub in_range : ℤ → Option ℤ
in_range a = if ltb_ℤ a (pos (2 ^ 31)) then some a else none

abbrev pub postgres : Engine
postgres = record {
  new_id = λ n ids. n;
  after_failure = suc;
  fits = λ n text. leb (count text) n;
  enforces_references = true;
  int_add = λ a b. in_range (a +ℤ b);
  load_tm = some;
  store_tm = some;
  missing_row = i_null;
}

-- SQLite does not enforce the length of a `varchar`, nor `references` unless told to, and its
-- integers have 64 bits.
abbrev pub sqlite : Engine
sqlite = record postgres {
  after_failure = λ n. n;
  fits = λ n text. true;
  enforces_references = false;
  int_add = λ a b. some (a +ℤ b);
}

pub postgres-IssuesFreshIds : IssuesFreshIds postgres
postgres-IssuesFreshIds = record {
  above = λ n ids below. below;
  within = λ n ids below. omega arith;
  positive = λ n ids h. h;
  grows = λ n. omega arith;
}
