-- ===== src/Liquidity/Safety.antt =====
-- Every operation of the liquidity service keeps the invariant, whatever it returns or throws.
pub mod Atomic
pub mod Reserve
pub mod Consume
pub mod Release
pub mod Confirm
