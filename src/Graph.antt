-- ===== src/Graph.antt =====
-- The typed graph (crates/innen-core/src/graph): its vocabulary and adjacency rules, the replay of a
-- journal into nodes and edges, and the checks before a write.
pub mod Vocabulary
pub mod Adjacency
pub mod Replay
pub mod Requests
mod Tests
