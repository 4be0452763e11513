-- ===== src/Capture.antt =====
-- What the extension captures to Kairo from the browser's context menu
-- (clients/nerve-extension/background.js, lib/kairo_capture.js).
mod Selection
mod Types
mod Filename
mod Source
mod Acts
mod RemoteFile
mod Menu
mod Tests
