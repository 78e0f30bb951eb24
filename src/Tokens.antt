-- ===== src/Tokens.antt =====
-- internal/auth: bearer tokens of the API and one-time codes for browsers.
pub mod Types
pub mod Manager
pub mod Laws
pub mod Issued
mod Tests
