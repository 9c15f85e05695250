-- ===== src/Db/Constraints.antt =====
-- The constraints of the `create table` statements, checked on an insert: an independent reading of
-- the declared columns (`validate` of DB/DBPostgres.cpp and DB/DBSQLite.cpp).
use wrongthink.Base.{
  ℕ, String, Bool, true, false, Option, none, some, List, [], ◌∷◌, map, ◌&&◌, ◌||◌, not, any, ◌==◌,
  str_eq, ◌≡◌, refl, ap, arith, if◌then◌else◌,
}
use wrongthink.Action.{Exception, value_too_long, unique_violation, foreign_key_violation}
use wrongthink.Db.Engine.{Engine}
use wrongthink.Db.Tables.{Db}
use wrongthink.Db.Sql.Schema.{
  TableName, users, banned_users, banned_ips, communities, channels, message, control_message,
}
use wrongthink.Db.Sql.Columns.{
  Backend, on_postgres, on_sqlite, SqlType, t_varchar, Constraint, primary_key, unique, references,
  Column, declared_columns,
}
use wrongthink.Db.Cells.{Cell, int, text, null}
use wrongthink.Db.Users.{user_violation}
use wrongthink.Db.Bans.{ip_violation, unknown_user}
use wrongthink.Db.Channels.{channel_violation, community_violation}
use wrongthink.Db.Messages.{Post, message_violation}

-- Texts and keys by the names of their columns.
abbrev pub Values : Type 0
Values = List (String × Cell)

abbrev pub value_at : String → Values → Cell
value_at name [] = null
value_at name ((n, v) ∷ vs) = if str_eq name n then v else value_at name vs

-- `null` is not equal to `null`.
abbrev pub same_cell : Cell → Cell → Bool
same_cell (text s) (text t) = str_eq s t
same_cell (int m) (int n) = m == n
same_cell _ _ = false

-- The rows that a table stores, of the columns with a key or with unique texts.
abbrev pub stored : TableName → Db → List Values
stored users db = map (λ u. ("user_id", int u.user_id) ∷ ("uname", text u.uname) ∷ []) db.users.rows
stored banned_users db = map (λ b. ("entry_id", int b.entry_id) ∷ []) db.banned_users.rows
stored banned_ips db =
    map (λ b. ("entry_id", int b.entry_id) ∷ ("ip", text b.ip) ∷ []) db.banned_ips.rows
stored communities db =
    map (λ c. ("community_id", int c.community_id) ∷ ("name", text c.name) ∷ []) db.communities.rows
stored channels db =
    map (λ c. ("channel_id", int c.channel_id) ∷ ("name", text c.name) ∷ []) db.channels.rows
stored message db = map (λ m. ("msg_id", int m.msg_id) ∷ []) db.message.rows
stored control_message db = map (λ m. ("msg_id", int m.msg_id) ∷ []) db.control_message.rows

abbrev pub holds : TableName → String → Cell → Db → Bool
holds t name v db = any (λ r. same_cell v (value_at name r)) (stored t db)

abbrev pub is_key : List Constraint → Bool
is_key [] = false
is_key (primary_key ∷ cs) = true
is_key (_ ∷ cs) = is_key cs

abbrev pub key_name : List Column → String
key_name [] = ""
key_name (c ∷ cs) = if is_key c.constraints then c.name else key_name cs

abbrev pub too_long : Engine → SqlType → Cell → Bool
too_long e (t_varchar n) (text s) = not (e.fits n s)
too_long e _ _ = false

module _ (e : Engine) (b : Backend) (t : TableName) (values : Values) (db : Db) where
  abbrev is_taken : String → List Constraint → Bool
  is_taken name [] = false
  is_taken name (unique ∷ cs) = holds t name (value_at name values) db || is_taken name cs
  is_taken name (_ ∷ cs) = is_taken name cs

  abbrev is_dangling : String → List Constraint → Bool
  is_dangling name [] = false
  is_dangling name (references u ∷ cs) =
      not (holds u (key_name (declared_columns b u)) (value_at name values) db)
      || is_dangling name cs
  is_dangling name (_ ∷ cs) = is_dangling name cs

  abbrev some_column : (Column → Bool) → List Column → Bool
  some_column p [] = false
  some_column p (c ∷ cs) = p c || some_column p cs

  -- The first constraint that an insert of the values violates.
  pub declared_violation : Option Exception
  declared_violation =
      if some_column (λ c. too_long e c.type (value_at c.name values)) (declared_columns b t)
      then some value_too_long
      else if some_column (λ c. is_taken c.name c.constraints) (declared_columns b t)
      then some unique_violation
      else if e.enforces_references
          && some_column (λ c. is_dangling c.name c.constraints) (declared_columns b t)
      then some foreign_key_violation
      else none

-- The inserts of the server, with the values that the constraints are about.
pub data Insert : Type 0 where
  of_user : String → String → Insert
  of_ban : ℕ → Insert
  of_ip : String → Insert
  of_community : String → ℕ → Insert
  of_channel : String → ℕ → ℕ → Insert
  of_message : Post → Insert

pub violation : Engine → Insert → Db → Option Exception
violation e (of_user uname token) db = user_violation e uname token db.users.rows
violation e (of_ban uid) db = unknown_user e uid db.users.rows
violation e (of_ip ip) db = ip_violation e ip db.banned_ips.rows
violation e (of_community name admin) db = community_violation e name admin db
violation e (of_channel name community admin) db = channel_violation e name community admin db
violation e (of_message p) db = message_violation e p db

abbrev pub table_of : Insert → TableName
table_of (of_user _ _) = users
table_of (of_ban _) = banned_users
table_of (of_ip _) = banned_ips
table_of (of_community _ _) = communities
table_of (of_channel _ _ _) = channels
table_of (of_message _) = message

abbrev pub values_of : Insert → Values
values_of (of_user uname token) = ("uname", text uname) ∷ ("token", text token) ∷ []
values_of (of_ban uid) = ("user_id", int uid) ∷ []
values_of (of_ip ip) = ("ip", text ip) ∷ []
values_of (of_community name admin) = ("name", text name) ∷ ("admin", int admin) ∷ []
values_of (of_channel name community admin) =
    ("name", text name) ∷ ("community", int community) ∷ ("admin", int admin) ∷ []
values_of (of_message p) =
    ("user_id", int p.user_id) ∷ ("channel", int p.channel) ∷ ("mtext", text p.text) ∷ []

any-map :
    {A B : Type 0} (f : A → B) (p : B → Bool) (xs : List A)
    → any p (map f xs) ≡ any (λ x. p (f x)) xs
unfolding any
any-map f p [] = refl
any-map f p (x ∷ xs) = ap (λ r. p (f x) || r) (any-map f p xs)

-- Each insert of the server is refused just when, and by the exception with which, the columns that
-- the `create table` statements declare refuse it, in either backend.
pub violation-eq-declared :
    (e : Engine) (b : Backend) (i : Insert) (db : Db)
    → violation e i db ≡ declared_violation e b (table_of i) (values_of i) db
unfolding violation declared_violation user_violation ip_violation community_violation
    channel_violation message_violation
violation-eq-declared e on_postgres (of_user uname token) db = rw (any-map) (ground arith)
violation-eq-declared e on_sqlite (of_user uname token) db = rw (any-map) (ground arith)
violation-eq-declared e on_postgres (of_ban uid) db = rw (any-map) (ground arith)
violation-eq-declared e on_sqlite (of_ban uid) db = rw (any-map) (ground arith)
violation-eq-declared e on_postgres (of_ip ip) db = rw (any-map) (ground arith)
violation-eq-declared e on_sqlite (of_ip ip) db = rw (any-map) (ground arith)
violation-eq-declared e on_postgres (of_community name admin) db =
    rw (any-map, any-map) (ground arith)
violation-eq-declared e on_sqlite (of_community name admin) db =
    rw (any-map, any-map) (ground arith)
violation-eq-declared e on_postgres (of_channel name community admin) db =
    rw (any-map, any-map, any-map) (ground arith)
violation-eq-declared e on_sqlite (of_channel name community admin) db =
    rw (any-map, any-map, any-map) (ground arith)
violation-eq-declared e on_postgres (of_message p) db = rw (any-map, any-map) (ground arith)
violation-eq-declared e on_sqlite (of_message p) db = rw (any-map, any-map) (ground arith)
