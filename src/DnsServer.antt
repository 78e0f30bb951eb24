-- ===== src/DnsServer.antt =====
-- internal/dnsserver: who may ask, and what is written back.
pub mod Policy
pub mod Handler
pub mod Laws
pub mod Answers
mod Tests
