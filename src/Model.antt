-- ===== src/Model.antt =====
-- The data of a booking (internal/model).
pub mod Status
pub mod Booking
pub mod Fingerprint
