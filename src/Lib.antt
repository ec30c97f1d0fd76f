-- ===== src/Lib.antt =====
-- innen keeps a project's working memory: a journal of events that is replayed into a typed graph,
-- and commands that choose from it the context a task needs. This library models the parts that
-- decide: what may be written into the graph, what a journal means, which nodes are selected under a
-- budget, when evidence counts as ready, which tool outputs of a transcript are stale, and which
-- native sessions may be deleted.
--
-- How the parts meet. The command line checks a write with the requests of the graph, which replay the
-- journal and ask the adjacency table. Evidence closure turns pinned sources into alternatives for
-- facts and asks context selection for the cheapest combination. Task proposals ask the evidence state
-- whether the reviewed premises permit an investigation. The pruning of a transcript page stands by
-- itself: it pairs calls with outputs, decides by rules, and writes the decisions into the records.
-- The retention policy reads the replayed graph for attestations before a session may be purged.
-- A purge notes its attempt in the journal, assesses the session again in the graph as it then is, and
-- hands the deletion to the tool of the session's source. Asserted edges are checked and appended by
-- EdgeWrite, which composes the requests of the graph with the journal.
--
-- Which file models which part (paths from the repository's root):
--   ContextSelection     crates/innen-core/src/context_selection.rs
--     Graph              Node, Edge, Fact, Selection, ContextGraph, `new`, `closure`, `cost`
--     Greedy             `select`: its loop, and the best closure of a round
--     Facts              `select_facts`, `select_facts_by`, FactSearch::visit
--   EvidenceState        crates/innen-core/src/evidence_state.rs: `assess`
--   Graph.Vocabulary     crates/innen-core/src/graph/adjacency.rs: NodeType, EdgeType, their names
--   Graph.Adjacency      the same file: `validate` and its table
--   Graph.Replay         crates/innen-core/src/graph/materialize.rs: `materialize`
--   Graph.Requests       crates/innen-core/src/graph/requests.rs: the checks before a write
--   Prune                crates/innen-core/src/conversation/prune: pair.rs and rules.rs
--     Apply              apply.rs and page.rs of the same folder
--   Retention            crates/innen-core/src/session_retention/policy.rs: the assessment of a session
--     Purge              purge.rs of the same folder: `purge_candidate`, and its notes (receipt.rs)
--   Contract             crates/innen-core/src/evidence_closure/contract.rs: the admission of a contract
--   Journal              crates/innen-core/src/journal.rs: `validate`, `append`, `open`, `read_all`
--     Lines              the lines of the file, on texts
--     Reading, Recovery  what an append adds, and what opening takes away
--     Runs               runs of one writer with refusals, openings and crashes
--   EvidenceClosure      crates/innen-core/src/evidence_closure
--     Snapshot           snapshot.rs: the journal up to a time, its citations and adjacency
--     Closure            closure.rs: `eligible` and `closure`
--     Evaluation         evaluation.rs: `packet` and `evaluate`
--   Ledger               crates/innen-core/src/artifact/ledger: its records, `read_state`, `project`
--     Ops                ops.rs: `init`, `add`, `event`, `receipt`, `check`
--     Log, Steps         what is in order in every ledger, and that the operations keep it
--   EdgeWrite            crates/innen-core/src/edge_write.rs: `append_edge_assert`
--   Bounded              crates/innen-core/src/conversation/bounded.rs: capped lines and line ranges
--   Common               tests, lists, texts, ordered sets and maps, JSON values and results
--
-- How code becomes definitions. A `u64` is a native number; where the code checks an addition the
-- bound 2 ^ 64 is written out; where it adds sizes of a transcript, both profiles of the build are. A BTreeSet is a strictly increasing list, a BTreeMap an association
-- list in the order of its keys, a text the list of its code points. A function that can fail returns
-- `Outcome`: its value, the code's error, or `panic` for an index or an unwrap that fails.
--
-- Parameters. `f64` is an abstract type with the operations that the code calls, with no law assumed
-- of them. The packet cost is the caller's function. The conversion of a JSON number to `f32`, the
-- current time, the reading of the journal's file and the parser of its lines are arguments, and so
-- are the probes of a native session's files, the deletion of them, and the scan that finds the calls, outputs and writes of
-- a transcript page.
--
-- The journal's JSON codec and the hash that names an event are arguments too. IsFaithful says what is
-- assumed of the codec for all entries: one is written as text on one line that is no blank. IsStable says
-- of one entry that it is read back as it was written and that its line is kept; serde_json promises it
-- within its limit of nesting and where no fraction is rounded, so the theorems ask it of the entries that
-- they write. Journal.Sample is a codec for which all of that is so. A file is the list of its characters,
-- where a byte that belongs to none has a number of its own, and reading it then fails as in the code.
--
-- Fuel. The closure runs on the number of nodes and of seeds, since each id is pushed once. The greedy
-- loop runs on the number of nodes and one, since each round selects a new id. The search over
-- facts is structural in the number of facts that are left.
--
-- Not modelled: file access, locking, printing, the full-text index and its ranking, the vendored
-- search engine, the token counter and the hashes.
pub mod Common
pub mod ContextSelection
pub mod EvidenceState
pub mod Graph
pub mod Prune
pub mod Retention
pub mod Contract
pub mod Journal
pub mod EvidenceClosure
pub mod Ledger
pub mod EdgeWrite
pub mod Bounded
