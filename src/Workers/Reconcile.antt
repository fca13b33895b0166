-- ===== src/Workers/Reconcile.antt =====
-- workers/reconciliation.daemon.ts.
pub mod Settlement
pub mod Sweep
pub mod Keeping
pub mod Reports
pub mod Outcome
pub mod Thrown
pub mod Payment
pub mod PaymentSweep
pub mod Paid
pub mod Stranded
mod Tests
