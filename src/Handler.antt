-- ===== src/Handler.antt =====
-- The REST handlers (internal/delivery/rest/handler).
pub mod Booking
pub mod Callback
pub mod Laws
pub mod Tests
