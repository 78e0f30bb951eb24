-- ===== src/Overrides.antt =====
-- internal/overrides: changes of the configuration that outlive the process.
pub mod Types
pub mod Apply
pub mod Store
pub mod Spec
pub mod Keys
pub mod Refinement
pub mod Laws
mod Tests
