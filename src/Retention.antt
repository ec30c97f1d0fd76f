-- ===== src/Retention.antt =====
-- session_retention/policy.rs: may the native bytes of a session be deleted? The file system, the
-- bundle's hash, the child sessions and the open file handles are arguments, `Native`.
pub mod Gates
pub mod Purge
mod Tests
use innen.Common.{
  ℕ, ◌+◌, ◌-◌, ◌*◌, Bool, true, false, not, ◌||◌, ◌&&◌, Option, none, some, List, [], ◌∷◌, ◌++◌,
  map, filter, find?, any, all, is_empty, is_some, is_some_and, unwrap_or, take, length, leb, eqb,
  foldl, if◌then◌else◌, ◌==◌, nat_eq, list_eq, Outcome, ok, err, panic, ◌>>=◌,
}
use innen.Common.Text.{Text, codes, is_ascii_digit, text_lt, text_le}
use innen.Common.Json.{Json, str, arr, Items, nil, cons, get, as_str, as_bool, and_then}
use innen.Graph.Vocabulary.{edge_name}
use innen.Graph.Replay.{StoredEdge, Materialized, find_node}

-- `Source` of conversation/sources.
pub data Source : Type 0 where
  antigravity codex claude gemini mcode opencode grok copilot cursor vscode qwen : Source

unfoldable pub source_name : Source → Text
source_name antigravity = codes "antigravity"
source_name codex = codes "codex"
source_name claude = codes "claude"
source_name gemini = codes "gemini"
source_name mcode = codes "mcode"
source_name opencode = codes "opencode"
source_name grok = codes "grok"
source_name copilot = codes "copilot"
source_name cursor = codes "cursor"
source_name vscode = codes "vscode"
source_name qwen = codes "qwen"

abbrev pub is_opencode : Source → Bool
is_opencode opencode = true
is_opencode _ = false

pub record Candidate : Type 0 where
  pub id : Text
  pub source : Source
  pub modified : Option Text
  pub path : Text
  pub project : Option Text
  pub parent_id : Option Text

pub data Activity : Type 0 where
  idle : Activity
  active : Activity
  unknown : Text → Activity

pub record Bundle : Type 0 where
  pub sha256 : Text
  pub bytes : ℕ
  pub targets : List Text

-- What the policy asks of the system about the candidate. An error is the text of one.
pub record Native : Type 0 where
  pub cutoff_utc : Text
  pub candidate_targets : List Text
  pub exists : Text → Bool
  pub measured_bytes : ℕ
  pub bundle : Outcome Text Bundle
  pub child_sessions : Outcome Text (List Text)
  pub session_activity : List Text → Activity

-- The messages, each with what it mentions.
pub data Blocker : Type 0 where
  already_removed modified_unknown inside_window no_attestation no_exact_attestation : Blocker
  no_knowledge open_handle : Blocker
  children : List Text → Blocker
  knowledge_gone edge_gone : (id : Text) → Blocker
  activity_unknown : (detail : Text) → Blocker

-- The code that goes with a message.
unfoldable pub blocker_code : Blocker → Text
blocker_code already_removed = codes "already_cleaned"
blocker_code modified_unknown = codes "modified_time_unknown"
blocker_code inside_window = codes "inside_retention_window"
blocker_code no_attestation = codes "attestation_missing"
blocker_code no_exact_attestation = codes "attestation_missing"
blocker_code no_knowledge = codes "knowledge_provenance_missing"
blocker_code open_handle = codes "session_active"
blocker_code (children ids) = codes "child_sessions_present"
blocker_code (knowledge_gone id) = codes "knowledge_provenance_missing"
blocker_code (edge_gone id) = codes "knowledge_provenance_missing"
blocker_code (activity_unknown detail) = codes "session_activity_unknown"

pub record Assessment : Type 0 where
  pub session_id : Text
  pub source : Text
  pub modified : Option Text
  pub cutoff_utc : Text
  pub source_bytes : ℕ
  pub source_sha256 : Text
  pub eligible : Bool
  pub blockers : List Blocker
  pub blocker_codes : List Text
  pub targets : List Text

-- `get(..4)`, `parse::<u16>` and the comparison: four digits that make a year from 1970 on.
unfoldable pub year_of : Text → ℕ
year_of s = foldl (λ n c. n * 10 + (c - 48)) 0 (take 4 s)

unfoldable pub is_trustworthy_modified : Option Text → Bool
unfolding year_of
is_trustworthy_modified modified =
    is_some_and modified
      λ s. leb 4 (length s) && all is_ascii_digit (take 4 s) && leb 1970 (year_of s)

-- `collect::<BTreeSet<_>>()` of the codes.
unfoldable pub insert_code : Text → List Text → List Text
insert_code code [] = code ∷ []
insert_code code (c ∷ rest) =
    if text_lt code c
    then code ∷ c ∷ rest
    else if code == c
    then c ∷ rest
    else c ∷ insert_code code rest

unfoldable pub code_set : List Blocker → List Text
unfolding blocker_code insert_code
code_set [] = []
code_set (b ∷ blockers) = insert_code (blocker_code b) (code_set blockers)

abbrev pub has_text : Text → Text → Json → Bool
has_text key value stored = is_some_and (and_then (get key stored) as_str) (λ s. s == value)

abbrev pub is_true : Text → Json → Bool
is_true key stored = is_some_and (and_then (get key stored) as_bool) (λ b. b)

-- The filter of `proof_candidates`.
unfoldable pub is_proof : Candidate → Json → Bool
unfolding source_name
is_proof candidate stored =
    has_text (codes "schema") (codes "innen.session-retention.v1") stored
    && has_text (codes "session_id") candidate.id stored
    && has_text (codes "source") (source_name candidate.source) stored
    && is_true (codes "extraction_complete") stored
    && is_true (codes "session_closed") stored

abbrev pub stored_values : List (Text × Json) → List Json
stored_values nodes = map (λ (n : Text × Json). n.1) nodes

abbrev pub push_text : Json → List Text → List Text
push_text (str s) rest = s ∷ rest
push_text _ rest = rest

abbrev pub texts : Items → List Text
texts nil = []
texts (cons v items) = push_text v (texts items)

abbrev pub as_texts : Json → List Text
as_texts (arr items) = texts items
as_texts _ = []

unfoldable pub knowledge_ids : Json → List Text
knowledge_ids proof = elim (get (codes "knowledge_node_ids") proof) [
  | none ↦ []
  | some ids ↦ as_texts ids
]

unfoldable pub conversation_id : Candidate → Text
unfolding source_name
conversation_id candidate =
    codes "conversation:" ++ source_name candidate.source ++ codes ":" ++ candidate.id

-- A live edge from the knowledge node to the conversation that says where it comes from.
unfoldable pub is_link : Text → Text → StoredEdge → Bool
unfolding edge_name
is_link id conversation edge =
    not edge.retracted
    && edge.from == id
    && edge.to == conversation
    && (edge_name edge.edge == codes "DERIVED_FROM" || edge_name edge.edge == codes "DISCUSSED_IN")

-- The body of the loop over the knowledge ids.
unfoldable pub check_knowledge : Materialized → Text → Text → List Blocker
unfolding find_node is_link
check_knowledge graph conversation id =
    if is_some (find_node id graph.nodes)
    then (if any (is_link id conversation) graph.edges then [] else edge_gone id ∷ [])
    else knowledge_gone id ∷ []

unfoldable pub check_all_knowledge : Materialized → Text → List Text → List Blocker
unfolding check_knowledge
check_all_knowledge graph conversation [] = []
check_all_knowledge graph conversation (id ∷ ids) =
    check_knowledge graph conversation id ++ check_all_knowledge graph conversation ids

unfoldable pub check_proof : Materialized → Candidate → Option Json → List Blocker
unfolding check_all_knowledge knowledge_ids conversation_id
check_proof graph candidate none = no_exact_attestation ∷ []
check_proof graph candidate (some proof) =
    (if is_empty (knowledge_ids proof) then no_knowledge ∷ [] else [])
    ++ check_all_knowledge graph (conversation_id candidate) (knowledge_ids proof)

abbrev pub check_children : List Text → List Blocker
check_children [] = []
check_children (child ∷ rest) = children (child ∷ rest) ∷ []

abbrev pub activity_blockers : Activity → List Blocker
activity_blockers idle = []
activity_blockers active = open_handle ∷ []
activity_blockers (unknown detail) = activity_unknown detail ∷ []

-- The activity is asked for only when nothing else stands in the way.
unfoldable pub check_activity : Activity → List Blocker → List Blocker
check_activity activity blockers =
    if is_empty blockers then activity_blockers activity else blockers

-- activity.rs: an open handle on the shared store of OpenCode says nothing of one session.
unfoldable pub liveness_targets : Source → List Text → List Text
liveness_targets source targets = if is_opencode source then [] else targets

module _ (native : Native) (graph : Materialized) (candidate : Candidate) where
  abbrev pub proofs : List Json
  proofs = filter (is_proof candidate) (stored_values graph.nodes)

  -- An early return, before the bundle is read.
  unfoldable pub blocked : Blocker → ℕ → Assessment
  unfolding source_name blocker_code
  blocked blocker bytes = record {
    session_id = candidate.id;
    source = source_name candidate.source;
    modified = candidate.modified;
    cutoff_utc = native.cutoff_utc;
    source_bytes = bytes;
    source_sha256 = [];
    eligible = false;
    blockers = blocker ∷ [];
    blocker_codes = blocker_code blocker ∷ [];
    targets = native.candidate_targets;
  }

  abbrev pub found_children : Outcome Text (List Text)
  found_children = if is_opencode candidate.source then native.child_sessions else ok []

  unfoldable pub find_blockers : Bundle → List Text → List Blocker
  unfolding check_proof check_activity is_proof liveness_targets
  find_blockers bundle child_ids =
      check_activity (native.session_activity (liveness_targets candidate.source bundle.targets)) (
        check_children child_ids
        ++ check_proof graph candidate
            (find? (has_text (codes "source_sha256") bundle.sha256) proofs))

  unfoldable pub assess_bundle : Bundle → List Text → Assessment
  unfolding find_blockers code_set source_name
  assess_bundle bundle child_ids = record {
    session_id = candidate.id;
    source = source_name candidate.source;
    modified = candidate.modified;
    cutoff_utc = native.cutoff_utc;
    source_bytes = bundle.bytes;
    source_sha256 = bundle.sha256;
    eligible = is_empty (find_blockers bundle child_ids);
    blockers = find_blockers bundle child_ids;
    blocker_codes = code_set (find_blockers bundle child_ids);
    targets = bundle.targets;
  }

  abbrev pub is_recent : Bool
  is_recent = is_some_and candidate.modified (λ modified. text_le native.cutoff_utc modified)

  unfoldable pub assess_candidate_with_graph : Outcome Text Assessment
  unfolding blocked assess_bundle is_trustworthy_modified is_proof
  assess_candidate_with_graph =
      if not (any native.exists native.candidate_targets)
      then ok (blocked already_removed 0)
      else if not (is_trustworthy_modified candidate.modified)
      then ok (blocked modified_unknown native.measured_bytes)
      else if is_recent
      then ok (blocked inside_window native.measured_bytes)
      else if is_empty proofs
      then ok (blocked no_attestation native.measured_bytes)
      else (native.bundle >>= λ bundle.
          found_children >>= λ child_ids. ok (assess_bundle bundle child_ids))
