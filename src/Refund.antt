-- ===== src/Refund.antt =====
-- modules/refunds.
pub mod Create
pub mod Execute
pub mod Bound
pub mod Uncaptured
pub mod Retry
pub mod Refused
mod Tests
