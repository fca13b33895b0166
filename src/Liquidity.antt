-- ===== src/Liquidity.antt =====
-- The treasury pools and the reservations that orders hold on them.
pub mod Telemetry
pub mod Service
pub mod Payout
pub mod Held
pub mod Invariant
pub mod Keeps
pub mod Safety
pub mod Trace
pub mod Repeat
mod Tests
