-- ===== src/Auth.antt =====
-- Authentication of a distributor (internal/auth, internal/repository/apikey and
-- internal/delivery/rest/middleware).
pub mod Key
pub mod Middleware
pub mod Admission
pub mod Issue
pub mod Laws
pub mod Issued
pub mod Tests
