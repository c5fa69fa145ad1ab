-- ===== src/Bridge.antt =====
-- The checks on the graph of a plan (bridge/validate.go).
pub mod Accept
pub mod Search
pub mod Graph
pub mod Cycle
pub mod Corridor
pub mod Plan
pub mod Codes
mod Samples
