-- ===== src/Reprice.antt =====
-- internal/reprice: what recorded usage would have cost under a scenario of moves between models.
pub mod Config
pub mod Calculator
pub mod Add
pub mod Report
pub mod Priced
mod Tests
