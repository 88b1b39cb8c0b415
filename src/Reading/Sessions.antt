-- ===== src/Reading/Sessions.antt =====
-- What the session operations of Reading.Service do to the tables.
pub mod Effects
pub mod Ending
pub mod Outcome
pub mod Refusals
pub mod Totals
pub mod Consistency
pub mod Reach
pub mod Duration
pub mod Repeats
pub mod Published
