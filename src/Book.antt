-- ===== src/Book.antt =====
-- The book domain (backend/app/domains/book): the reader's library.
pub mod Models
pub mod Repository
pub mod Service
pub mod Library
