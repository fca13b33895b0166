-- ===== src/Payment.antt =====
-- modules/payments.
pub mod Verify
pub mod Outcome
mod Tests
