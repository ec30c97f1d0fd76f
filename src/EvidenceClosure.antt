-- ===== src/EvidenceClosure.antt =====
-- evidence_closure: what a contract's facts rest on, taken from the journal, and whether it fits.
pub mod Snapshot
pub mod Closure
pub mod Follows
pub mod Sound
pub mod Ends
pub mod Linked
pub mod Closed
pub mod Evaluation
pub mod Options
pub mod Choice
pub mod Names
pub mod Supports
pub mod Covers
mod Tests
