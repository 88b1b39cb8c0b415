-- ===== src/Club/Sessions.antt =====
-- backend/app/domains/club: the discussion sessions of a club and their lifecycle.
pub mod Repository
pub mod Service
pub mod Lifecycle
pub mod Requests
pub mod Reach
pub mod Hosting
