-- ===== src/Club/Comments.antt =====
-- backend/app/domains/club: the discussion under a topic.
pub mod Repository
pub mod Service
pub mod Depth
pub mod Reach
pub mod Threads
pub mod Shown
