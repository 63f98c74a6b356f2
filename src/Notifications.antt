-- ===== src/Notifications.antt =====
-- internal/notifications: the registered devices and the watcher that reports sessions to them.
pub mod Registrations
pub mod Watcher
mod Tests
