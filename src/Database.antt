-- ===== src/Database.antt =====
-- server/src/database/adapters: the tables that the services read and write.
pub mod Tables
pub mod ClientRows
