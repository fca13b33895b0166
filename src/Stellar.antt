-- ===== src/Stellar.antt =====
-- src/stellar.
pub mod Encode
pub mod Digits
pub mod Check
pub mod Policy
pub mod Engine
pub mod Authorized
pub mod Approval
pub mod Confirmation
mod Tests
