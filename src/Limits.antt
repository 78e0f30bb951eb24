-- ===== src/Limits.antt =====
-- Rate limits by client: internal/dnsserver/policy.go, and internal/httpapi/exchange_limiter.go and
-- password_limiter.go, which keep the same kind of table.
pub mod Table
pub mod Laws
pub mod Isolation
pub mod Tests
pub mod Exchange
pub mod Password
mod Attempts
