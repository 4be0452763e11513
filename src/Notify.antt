-- ===== src/Notify.antt =====
-- Notifications that are read when they are seen
-- (apps/elektrine/assets/js/hooks/notification_visibility.js).
pub mod Hook
pub mod Marks
pub mod Tracked
pub mod Reported
mod Tests
