-- ===== src/Notification.antt =====
-- backend/app/domains/notification: the inbox, the preferences, and the subscribers of the event bus.
pub mod Models
pub mod Service
pub mod Subscribers
