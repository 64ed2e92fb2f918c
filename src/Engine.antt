-- ===== src/Engine.antt =====
-- crates/matchx-engine/src: the matching engine.
pub mod Policy
pub mod State
pub mod Matching
pub mod Request
pub mod Orders
pub mod Stops
pub mod Process
mod Tests
