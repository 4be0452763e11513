-- ===== src/Presence.antt =====
-- The tracker that sets a user away (apps/elektrine/assets/js/hooks/presence_hooks.js).
pub mod Tracker
pub mod Idle
mod Tests
