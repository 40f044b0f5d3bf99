-- ===== src/Store.antt =====
-- The database: the rows of src/pospay/domain, the tables, and the session that works on them.
pub mod Rows
pub mod Db
pub mod Exec
pub mod Match
pub mod Scope
pub mod Columns
