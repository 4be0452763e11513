-- ===== src/Mailbox.antt =====
-- The keys of the private mailbox (apps/elektrine/assets/js/hooks/mailbox_private_crypto.js).
pub mod Types
pub mod Wrap
pub mod Unlock
mod Status
mod Pem
pub mod Laws
pub mod Master
mod Tests
