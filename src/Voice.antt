-- ===== src/Voice.antt =====
-- The voice channels of a community (apps/elektrine/assets/js/hooks/voice_channel_hook.js).
pub mod Types
pub mod Peers
pub mod Signals
pub mod Machine
pub mod Tidy
pub mod Safety
pub mod Initiator
pub mod Handshake
mod Tests
