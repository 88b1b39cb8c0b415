-- ===== src/Club/Agendas.antt =====
-- backend/app/domains/club: the presenters' agendas of a session and their topics.
pub mod Repository
pub mod Service
pub mod Publication
pub mod Order
pub mod Reach
