-- ===== src/Retention/Tests.antt =====
-- session_retention/policy.rs and purge.rs: a session that may be purged, and its purge.
use innen.Common
use innen.Common.{◌⊎◌, ℕ, ◌≡◌, refl, Bool, true, false, Option, none, some, List, [], ◌∷◌, ok}
use innen.Common.Text.{Text, codes}
use innen.Common.Json.{Json, str, bool, arr, nil, cons, obj, end, field}
use innen.Graph.Vocabulary.{discussed_in}
use innen.Graph.Replay.{StoredEdge, Materialized}
use innen.Retention.{
  Candidate, codex, Native, Bundle, Activity, idle, active, Assessment, assess_candidate_with_graph,
  open_handle,
}
use innen.Retention.Purge.{Action, noted, deletion, attempt, purged, System, purge_candidate}
use innen.Retention.Purge.Safe.{deletions, IsOrderly, purge_candidate-deletes}

abbrev session : Candidate
session = record {
  id = codes "s1";
  source = codex;
  modified = some (codes "2025-01-01T00:00:00Z");
  path = codes "/s1";
  project = none;
  parent_id = none;
}

abbrev files : Bundle
files = record { sha256 = codes "0123456789abcdef"; bytes = 9; targets = codes "/s1" ∷ [] }

abbrev native_with : Activity → Native
native_with activity = record {
  cutoff_utc = codes "2026-01-01T00:00:00Z";
  candidate_targets = codes "/s1" ∷ [];
  exists = λ path. true;
  measured_bytes = 9;
  bundle = ok files;
  child_sessions = ok [];
  session_activity = λ targets. activity;
}

abbrev attestation : Json
attestation = obj (
    field (codes "schema") (str (codes "innen.session-retention.v1")) (
      field (codes "session_id") (str (codes "s1")) (
        field (codes "source") (str (codes "codex")) (
          field (codes "extraction_complete") (bool true) (
            field (codes "session_closed") (bool true) (
              field (codes "source_sha256") (str (codes "0123456789abcdef"))
                (field (codes "knowledge_node_ids") (arr (cons (str (codes "k1")) nil)) end)))))))

abbrev discussed : StoredEdge
discussed = record {
  from = codes "k1";
  edge = discussed_in;
  to = codes "conversation:codex:s1";
  weight = none;
  valid_from = [];
  valid_until = none;
  retracted = false;
  observed_utc = [];
  provenance = none;
}

abbrev graph : Materialized
graph = record {
  nodes = (codes "a1", attestation) ∷ (codes "k1", obj end) ∷ [];
  edges = discussed ∷ [];
}

abbrev released : Assessment
released = record {
  session_id = codes "s1";
  source = codes "codex";
  modified = some (codes "2025-01-01T00:00:00Z");
  cutoff_utc = codes "2026-01-01T00:00:00Z";
  source_bytes = 9;
  source_sha256 = codes "0123456789abcdef";
  eligible = true;
  blockers = [];
  blocker_codes = [];
  targets = codes "/s1" ∷ [];
}

abbrev held : Assessment
held = record released {
  eligible = false;
  blockers = open_handle ∷ [];
  blocker_codes = codes "session_active" ∷ [];
}

is_held : assess_candidate_with_graph (native_with active) graph session ≡ ok held
unfolding assess_candidate_with_graph innen.Common.Text.text_le
is_held = refl

abbrev system : System
system = record {
  native = native_with idle;
  load_graph = λ actions. ok graph;
  refuses = λ actions note. none;
  hard_links = λ targets. (0, 0);
  delete_candidate = λ a. ok (codes "/s1" ∷ []);
  nonce = codes "1";
}

abbrev purged_actions : List Action
purged_actions =
    noted (attempt (codes "session-purge-attempt:codex:s1:1") 7)
    ∷ deletion released
    ∷ noted (
        purged (codes "session-purge:codex:s1:0123456789abcdef")
          (some (codes "session-purge-attempt:codex:s1:1")) (codes "0123456789abcdef")
          (codes "/s1" ∷ []))
    ∷ []

purge-acts : (purge_candidate system session 7 [] true).1 ≡ purged_actions
unfolding purge_candidate assess_candidate_with_graph innen.Common.Text.text_le
purge-acts = refl

-- A parent on disk is never touched.
abbrev child : Candidate
child = record session { id = codes "s2"; parent_id = some (codes "s1") }

purge-parent : (purge_candidate system session 7 (child ∷ []) true).1 ≡ []
unfolding purge_candidate
purge-parent = refl

purge_candidate-deletes_example :
    (deletions (purge_candidate system session 7 [] true).1 ≡ [])
    ⊎ (a : Assessment) × (deletions (purge_candidate system session 7 [] true).1 ≡ a ∷ [])
      × IsOrderly system session 7 [] true a (purge_candidate system session 7 [] true).1
purge_candidate-deletes_example = purge_candidate-deletes system session 7 [] true
