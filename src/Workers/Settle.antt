-- ===== src/Workers/Settle.antt =====
-- workers/settlement.worker.ts.
pub mod Flow
pub mod Sweep
pub mod Once
pub mod Marked
pub mod Completes
mod Tests
