-- ===== src/Files.antt =====
-- The file explorer (apps/elektrine/assets/js/hooks/file_explorer_hook.js).
pub mod Types
pub mod Rows
pub mod Drag
pub mod Keys
pub mod Machine
pub mod Usable
pub mod Events
mod Tests
