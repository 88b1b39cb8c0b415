-- ===== src/Reading.antt =====
-- The reading domain (backend/app/domains/reading).
pub mod Models
pub mod Repository
pub mod Service
pub mod Sessions
pub mod Goals
pub mod GradePolicy
pub mod StreakPolicy
