-- ===== src/Core.antt =====
-- backend/app/core and backend/app/shared: exceptions, the tables of the modelled domains, the request's
-- session, and the event bus.
pub mod Exceptions
pub mod Events
pub mod Database
pub mod Pages
pub mod Cursors
pub mod Threads
pub mod Session
pub mod EventBus
