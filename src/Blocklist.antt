-- ===== src/Blocklist.antt =====
-- internal/blocklist: the download of a hosts file from a repository, and the revision that is kept of
-- it.
pub mod Types
pub mod Client
pub mod Revision
pub mod Source
pub mod Redirect
pub mod Laws
pub mod Tests
