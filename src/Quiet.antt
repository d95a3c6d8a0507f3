-- ===== src/Quiet.antt =====
-- A world where no other session moves and no statement fails: what the attempts of the workflow come
-- to, as a walk over the supplier's answers, and what a creation and a callback come to.
pub mod Sql
pub mod Spec
pub mod Write
pub mod Attempt
pub mod Ended
pub mod Apply
pub mod Park
pub mod Answered
pub mod Whole
pub mod Verdict
pub mod Refusals
pub mod Callback
pub mod Redelivery
pub mod Register
pub mod Create
pub mod History
pub mod Lost
pub mod Superseded
pub mod Walk
pub mod Ends
pub mod Workflow
pub mod Tests
