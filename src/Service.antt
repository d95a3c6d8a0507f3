-- ===== src/Service.antt =====
-- The booking service (internal/service/booking/service.go): creating a booking, reading one and
-- applying a supplier's callback.
pub mod Create
pub mod Callback
pub mod Refines
pub mod Own
pub mod Idempotent
pub mod Tests
