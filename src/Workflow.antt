-- ===== src/Workflow.antt =====
-- The booking workflow (internal/workflow).
pub mod Activity
pub mod Attempt
pub mod Apply
pub mod Park
pub mod Charged
pub mod Refines
pub mod Writes
pub mod Run
