-- ===== src/Spend/Routing.antt =====
-- internal/spend/routing.go: the routing audit.
pub mod Fields
pub mod Partition
pub mod Totals
pub mod Modular
pub mod Merge
pub mod Accumulator
pub mod Report
pub mod Audit
mod Tests
