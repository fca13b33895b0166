-- ===== src/Store.antt =====
-- The state that the services share: rows, tables, and the actions on them.
pub mod Status
pub mod Rows
pub mod Action
pub mod Table
pub mod Config
pub mod Sample
