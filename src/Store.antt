-- ===== src/Store.antt =====
-- The tables of the database, as the repository's statements use them (migrations/0001_bookings.sql
-- and internal/repository/booking). `events` holds the lineage newest first.
pub mod Table
pub mod Rows
pub mod Statement
pub mod Steps
pub mod Effect
pub mod Lineage
pub mod Ordered
pub mod Faithful
pub mod Sound
pub mod Later
