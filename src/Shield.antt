-- ===== src/Shield.antt =====
-- backend/app/domains/shield: streak shields bought in the app.
pub mod Models
pub mod Service
pub mod Balance
