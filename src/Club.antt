-- ===== src/Club.antt =====
-- backend/app/domains/club: reading clubs, their members, events, messages, and discussion sessions.
pub mod Models
pub mod Repository
pub mod Membership
pub mod Roster
pub mod Guards
pub mod Sessions
pub mod Comments
pub mod Agendas
pub mod Events
pub mod Messages
pub mod Rooms
pub mod Plans
