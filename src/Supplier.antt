-- ===== src/Supplier.antt =====
-- The supplier's side (internal/supplier).
pub mod Client
pub mod Wire
pub mod Http
pub mod Honest
pub mod Tests
