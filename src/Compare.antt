-- ===== src/Compare.antt =====
-- internal/compare, the comparison of two windows of snapshots. CacheView has cache_view.go, which the spend analysis
-- shares; Envelope has the snapshots; Windows has `validateWindow` and Ranking `RankCandidates` of compare.go; TopK has
-- topk.go; Provenance has provenance.go; CacheQuality has `cacheQuality` of cache.go beside cache_summary.go; and
-- UsageSource has a question of investigate.go.
pub mod CacheView
pub mod Envelope
pub mod Ranking
pub mod TopK
pub mod Provenance
pub mod UsageSource
pub mod Windows
pub mod CacheQuality
mod Tests
