-- ===== src/Accounting.antt =====
-- internal/accounting.
pub mod Number
pub mod Names
pub mod Tokens
pub mod Counts
pub mod Cost
pub mod MetricKeys
