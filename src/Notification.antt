-- ===== src/Notification.antt =====
-- internal/notification: the data of the service and its pure rules.
pub mod Model
pub mod State
pub mod Retry
pub mod Hash
