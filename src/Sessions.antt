-- ===== src/Sessions.antt =====
-- internal/browserauth: sessions of browsers, which a one-time code or the password of the administrator
-- opens.
pub mod Tables
pub mod Types
pub mod Store
pub mod Csrf
pub mod Password
pub mod Rows
pub mod Ops
pub mod Outcomes
pub mod Logins
pub mod Rotation
pub mod Opened
pub mod Spent
mod Tests
pub mod Replay
pub mod Sound
pub mod Trim
pub mod Added
pub mod Bounds
