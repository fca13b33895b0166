-- ===== src/Lock.antt =====
-- src/infrastructure/locks and the Redis that its tests run on.
pub mod Redis
pub mod Service
pub mod Guard
pub mod Live
pub mod Owners
pub mod Refinement
pub mod Exclusion
pub mod Trace
mod Tests
