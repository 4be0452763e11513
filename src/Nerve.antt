-- ===== src/Nerve.antt =====
-- The Nerve browser extension (clients/nerve-extension).
pub mod Types
pub mod Crypto
pub mod Effects
pub mod Storage
pub mod Urls
pub mod Session
pub mod Ranking
pub mod Fill
pub mod Save
pub mod Messages
pub mod Worker
pub mod Stable
pub mod Demo
pub mod Password
mod Tests
