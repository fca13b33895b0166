-- ===== src/Machine.antt =====
-- The four state machines that guard the statuses of orders, payments, settlements and refunds.
pub mod Order
pub mod Payment
pub mod Settlement
pub mod Refund
pub mod Walk
pub mod History
mod Tests
