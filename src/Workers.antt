-- ===== src/Workers.antt =====
-- src/workers.
pub mod Cleanup
pub mod Reconcile
pub mod Settle
mod Tests
