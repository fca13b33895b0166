-- ===== src/Settlement.antt =====
-- Settlements: the payout of an order, from its creation to its end.
pub mod Service
pub mod Marks
pub mod Claims
pub mod Creation
pub mod Flow
mod Tests
