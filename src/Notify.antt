-- ===== src/Notify.antt =====
-- src/common/notification_model: the units that queue notifications for a receiver, and the center
-- that keeps one unit for each receiver's name.
pub mod Unit
pub mod Center
mod Tests
