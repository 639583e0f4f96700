-- ===== src/Db.antt =====
-- src/infra/persistence/db_sqlite.c: the schema, the growing text buffer, the insert, and the history
-- reply.
pub mod Buffer
pub mod Row
pub mod Sqlite
pub mod History
pub mod Schema
