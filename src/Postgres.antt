-- ===== src/Postgres.antt =====
-- The PostgreSQL driver, rbdc-pg/src.
pub mod Io
pub mod Pgpass
pub mod TypeInfo
pub mod Message
pub mod Stream
mod Tests
