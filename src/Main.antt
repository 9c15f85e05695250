-- ===== src/Main.antt =====
-- `main` of wrongthink.cpp, up to `RunServer`.
use wrongthink.Base.{
  ℕ, String, Bool, false, List, [], ◌∷◌, ◌≡◌, refl, str_eq, if◌then◌else◌, Bool-cases, inl, inr,
}
use wrongthink.Action.{Action, Outcome, ok, thrown, ◌>>◌}
use wrongthink.Db.Engine.{Engine}
use wrongthink.Db.Tables.{Db}
use wrongthink.Db.Setup.{validate, clear}
use wrongthink.Db.Setup.Cleared.{empty_db, validate-clear}
use wrongthink.Db.Setup.Validated.{validated, validate-eq-validated}

-- What `main` does in the end: it returns a code, or serves first.
pub data Started : Type 0 where
  exited : ℕ → Started
  served : Started

-- argc == 2 && strcmp(argv[1], word) == 0
unfoldable pub is_argument : String → List String → Bool
is_argument word (name ∷ argument ∷ []) = str_eq argument word
is_argument word _ = false

abbrev prepare : Engine → List String → Action Db (Unit {0})
prepare e argv = if is_argument "clear" argv then clear e >> validate e else validate e

-- The `catch` returns 0.
abbrev finished : Outcome (Unit {0}) × Db → Started × Db
finished (ok u, db) = (served, db)
finished (thrown x, db) = (exited 0, db)

-- `argv` has the name of the program first. The server is the one on PostgreSQL, `e`.
pub main : Engine → List String → Db → Started × Db
unfolding is_argument
main e argv db = if is_argument "sqlite" argv then (exited 1, db) else finished (prepare e argv db)

abbrev pub main_result : List String → Db → Started × Db
main_result argv db =
    if is_argument "sqlite" argv
    then (exited 1, db)
    else if is_argument "clear" argv
    then (served, empty_db)
    else (served, validated db)

-- With the argument `sqlite` the program returns 1 and touches nothing; with `clear` it serves on
-- seven new and empty tables; otherwise it serves on the tables of before, with the missing ones
-- created. No database makes it return before it serves.
pub main-eq-main_result :
    (e : Engine) (argv : List String) (db : Db) → main e argv db ≡ main_result argv db
unfolding main
main-eq-main_result e argv db =
    let (first, second) = validate-clear e db in
    elim (Bool-cases (is_argument "sqlite" argv)) [
      | inl sqlite ↦ rw sqlite refl
      | inr other ↦ elim (Bool-cases (is_argument "clear" argv)) [
        | inl clearing ↦ rw (other, clearing, first, second) refl
        | inr plain ↦ rw (other, plain, validate-eq-validated e db) refl
      ]
    ]
