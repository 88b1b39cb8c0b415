-- ===== src/Social.antt =====
-- backend/app/domains/social: follows, blocks and reports, and the weekly leaderboard.
pub mod Models
pub mod Repository
pub mod Service
pub mod Graph
pub mod Reach
pub mod Leaderboard
