-- ===== src/Vault.antt =====
-- The unlocked key of a browser tab (apps/elektrine/assets/js/hooks/vault_session.js).
pub mod Types
pub mod Session
pub mod Keys
pub mod Recovery
mod Secret
pub mod Reload
pub mod Refinement
mod Tests
