-- ===== src/Config.antt =====
-- The configuration (config).
pub mod Word
pub mod Load
pub mod Laws
pub mod Tests
