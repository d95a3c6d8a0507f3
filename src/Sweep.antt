-- ===== src/Sweep.antt =====
-- The sweep (internal/sweep) and the query that it runs.
pub mod Stale
pub mod Pass
pub mod Order
pub mod Laws
pub mod Run
pub mod Tests
