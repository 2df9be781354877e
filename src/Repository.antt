-- ===== src/Repository.antt =====
-- The SQLite repository of one media database: its entry table and the denormalised statistics.
pub mod Types
pub mod Table
pub mod Entries
pub mod Consistency
pub mod Query
pub mod Queue
pub mod Effects
pub mod Tokens
