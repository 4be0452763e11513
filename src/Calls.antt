-- ===== src/Calls.antt =====
-- The peer-to-peer call client (apps/elektrine/assets/js/webrtc_client.js).
pub mod Types
pub mod Client
pub mod Machine
pub mod Invariant
pub mod Safety
pub mod Silence
pub mod Signals
mod Tests
