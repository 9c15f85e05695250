-- ===== src/Db/Cells.antt =====
-- Rows as SOCI hands them over: `row.get<int>(i)`, `row.get<std::string>(i)` and their versions by
-- name, on rows of `select *` in the column order of the `create table` statements.
use wrongthink.Base.{
  ℕ, suc, String, Bool, Option, none, some, List, [], ◌∷◌, ◌++◌, map, filter, str_eq, get_elem?,
  if◌then◌else◌,
}
use wrongthink.Action.{
  Outcome, ok, thrown, out_of_range, bad_conversion, null_value, undefined_column,
}
use wrongthink.Db.Tables.{User, Community, Channel, Message}
use wrongthink.Db.Sql.Schema.{TableName, columns}
use wrongthink.Db.Users.{has_id}

pub data Cell : Type 0 where
  int : ℕ → Cell
  boolean : Bool → Cell
  text : String → Cell
  null : Cell

pub record Row : Type 0 where
  pub names : List String
  pub cells : List Cell

abbrev pub int_of_cell : Cell → Outcome ℕ
int_of_cell (int n) = ok n
int_of_cell (boolean b) = ok (if b then 1 else 0)
int_of_cell (text s) = thrown bad_conversion
int_of_cell null = thrown null_value

abbrev pub text_of_cell : Cell → Outcome String
text_of_cell (text s) = ok s
text_of_cell null = thrown null_value
text_of_cell _ = thrown bad_conversion

abbrev pub cell_at : {A : Type 0} → (Cell → Outcome A) → Option Cell → Outcome A
cell_at read none = thrown out_of_range
cell_at read (some c) = read c

abbrev pub get_int : ℕ → Row → Outcome ℕ
get_int i r = cell_at int_of_cell (get_elem? r.cells i)

abbrev pub get_text : ℕ → Row → Outcome String
get_text i r = cell_at text_of_cell (get_elem? r.cells i)

-- The position of the first column with the name.
unfoldable pub position : String → List String → Option ℕ
position name [] = none
position name (n ∷ ns) =
    if str_eq name n
    then some 0
    else elim (position name ns) [ none ↦ none | some i ↦ some (suc i) ]

abbrev pub at_position : {A : Type 0} → (ℕ → Outcome A) → Option ℕ → Outcome A
at_position read none = thrown undefined_column
at_position read (some i) = read i

abbrev pub get_int_named : String → Row → Outcome ℕ
get_int_named name r = at_position (λ i. get_int i r) (position name r.names)

abbrev pub get_text_named : String → Row → Outcome String
get_text_named name r = at_position (λ i. get_text i r) (position name r.names)

abbrev pub user_cells : User → List Cell
user_cells u = int u.user_id ∷ text u.uname ∷ text u.token ∷ boolean u.admin ∷ []

abbrev pub community_cells : Community → List Cell
community_cells c = int c.community_id ∷ text c.name ∷ int c.admin ∷ boolean c.public ∷ []

abbrev pub channel_cells : Channel → List Cell
channel_cells c =
    int c.channel_id ∷ text c.name ∷ int c.community ∷ int c.admin ∷ boolean c.allow_anon ∷ []

abbrev pub message_cells : Message → List Cell
message_cells m =
    int m.msg_id
    ∷ int m.user_id
    ∷ int m.channel
    ∷ int m.thread_id
    ∷ boolean m.thread_child
    ∷ boolean m.edited
    ∷ text m.mtext
    ∷ int m.mdate
    ∷ []

module _ {R : Type 0} (table : TableName) (user : R → ℕ) (cells : R → List Cell) where
  abbrev pub join_row : R → User → Row
  join_row r u = record {
    names = columns table ++ columns TableName.users;
    cells = cells r ++ user_cells u;
  }

  -- `select * from table inner join users on table.user = users.user_id`
  unfoldable pub inner_join : List R → List User → List Row
  inner_join [] us = []
  inner_join (r ∷ rs) us = map (join_row r) (filter (has_id (user r)) us) ++ inner_join rs us
