-- ===== src/Feed.antt =====
-- backend/app/domains/feed: posts, reactions and comments, highlights, and the activity stream.
pub mod Models
pub mod Repository
pub mod Posts
pub mod Reactions
pub mod Comments
pub mod Service
pub mod Reach
pub mod Highlights
pub mod Activity
