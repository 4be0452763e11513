-- ===== src/Api.antt =====
-- The client of the server's HTTP interface (clients/nerve-extension/lib/api.js).
pub mod Types
pub mod Address
pub mod Form
pub mod Request
pub mod Sent
pub mod Secure
mod Tests
