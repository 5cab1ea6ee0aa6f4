-- ===== src/Spend/Session.antt =====
-- internal/spend/session.go: the review of sessions. Window has the period, Store the state, Track what a row does to its session, Step what it does in all, Clip the marks of sessions that
-- the period may cut, Report what is shown, Review the whole. The keyed hash of an identity and the parser of times are
-- parameters.
pub mod Window
pub mod Store
pub mod Track
pub mod Step
pub mod Clip
pub mod Distribution
pub mod Report
pub mod Review
mod Tests
