-- ===== src/Quote.antt =====
-- modules/quotes.
pub mod Service
pub mod Once
mod Tests
