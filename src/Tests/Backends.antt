-- ===== src/Tests/Backends.antt =====
-- The properties of the two backends, at the sample engines and states.
use wrongthink.Base.{◌≡◌, map}
use wrongthink.Db.Backends.{postgres_db, sqlite_db, sqlite_db-eq-postgres_db}
use wrongthink.Db.Constraints.{
  of_channel, violation, declared_violation, table_of, values_of, violation-eq-declared,
}
use wrongthink.Db.Sql.Columns.{on_postgres, shape, sqlite_columns, postgres_columns}
use wrongthink.Db.Sql.Schema.{TableName}
use wrongthink.Tests.Engines.{postgres, sqlite}
use wrongthink.Tests.Samples.{chat_db}

sqlite_db-eq-postgres_db_example :
    (sqlite_db sqlite ≡ postgres_db sqlite)
    × ((t : TableName) → map shape (sqlite_columns t) ≡ map shape (postgres_columns t))
sqlite_db-eq-postgres_db_example = sqlite_db-eq-postgres_db sqlite

-- A channel whose admin is no account.
violation-eq-declared_example :
    violation postgres (of_channel "random" 1 9) chat_db
    ≡ declared_violation postgres on_postgres
        (table_of (of_channel "random" 1 9))
        (values_of (of_channel "random" 1 9))
        chat_db
violation-eq-declared_example =
    violation-eq-declared postgres on_postgres (of_channel "random" 1 9) chat_db
