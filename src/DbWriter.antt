-- ===== src/DbWriter.antt =====
-- services/db-writer/db_writer/: the streams of Redis, written to the database.
pub mod Adapter
pub mod Consumer
pub mod Delivery
pub mod Tests
