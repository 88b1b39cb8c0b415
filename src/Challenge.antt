-- ===== src/Challenge.antt =====
-- backend/app/domains/challenge: challenges, their participants, and badges.
pub mod Models
pub mod Repository
pub mod Service
pub mod Effects
pub mod Uniqueness
pub mod Participation
pub mod Awards
pub mod Progress
pub mod ManualAwards
pub mod Pins
pub mod Wiring
