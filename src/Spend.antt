-- ===== src/Spend.antt =====
-- internal/spend: the analysis of request-level spend rows.
pub mod Period
pub mod Reader
pub mod Row
pub mod Quality
pub mod Usage
pub mod CallTypes
pub mod Cache
pub mod Aggregate
pub mod Digests
pub mod Routing
pub mod Selection
pub mod Session
pub mod Replay
pub mod Provider
pub mod Agents
mod Tests
mod ReaderTests
