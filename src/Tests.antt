-- ===== src/Tests.antt =====
-- Concrete inputs for the theorems of the library: one reader's tables, and the calls on them.
pub mod Data
pub mod Sessions
pub mod Goals
pub mod Policies
pub mod Shields
pub mod Library
pub mod Challenges
pub mod Events
pub mod Meeting
pub mod Clubs
pub mod Discussions
pub mod Feed
pub mod Highlights
pub mod Social
