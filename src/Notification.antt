-- ===== src/Notification.antt =====
-- services/notification-service: the queue of notifications and its consumer.
pub mod Repo
pub mod Handler
pub mod Sent
pub mod Tests
