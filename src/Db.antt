-- ===== src/Db.antt =====
-- The database layer, DB/DBInterface.*, DB/DBPostgres.* and DB/DBSQLite.*.
pub mod Engine
pub mod Tables
pub mod Sql
pub mod Setup
pub mod Cells
pub mod Order
pub mod Keys
pub mod Relations
pub mod Users
pub mod Bans
pub mod Channels
pub mod Messages
pub mod Constraints
pub mod Sqlite
pub mod Backends
