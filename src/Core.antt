-- ===== src/Core.antt =====
-- The types that every part of the SDK shares (src/core/model).
pub mod Error
pub mod Outcome
pub mod Naming
pub mod Traffic
pub mod Context
pub mod Cache
pub mod Tests
