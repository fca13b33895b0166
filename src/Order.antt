-- ===== src/Order.antt =====
-- modules/orders.
pub mod Service
pub mod Changes
mod Tests
