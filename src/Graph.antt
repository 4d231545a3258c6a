-- ===== src/Graph.antt =====
-- The graph debugger of rust/src/graph.rs.
pub mod State
pub mod Drawing
pub mod Admin
pub mod Snapshot
pub mod Http
pub mod Serve
pub mod Listen
