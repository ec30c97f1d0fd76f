-- ===== src/ContextSelection.antt =====
-- Directed dependency selection (crates/innen-core/src/context_selection.rs): `Graph` builds the
-- graph and closes a set under its edges, `Greedy` fills a budget, `Facts` searches for the cheapest
-- evidence.
pub mod Graph
pub mod Closure
pub mod Construct
pub mod Weight
pub mod Greedy
pub mod Facts
mod Tests
