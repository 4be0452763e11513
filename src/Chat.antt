-- ===== src/Chat.antt =====
-- The encrypted chat of the web client (apps/elektrine/assets/js/hooks/chat_e2ee_hook.js and
-- chat_e2ee_crypto.js).
pub mod Types
pub mod Devices
pub mod Store
pub mod Trust
pub mod Keys
pub mod Send
pub mod Plaintexts
pub mod Receive
pub mod Submit
pub mod Exchange
pub mod Rotation
mod Tests
