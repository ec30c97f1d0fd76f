-- ===== src/EvidenceClosure/Tests.antt =====
-- evidence_closure: a question whose evidence rests on another source, and instances of the theorems.
use innen.Common
use innen.ContextSelection
use innen.Common.{
  ℕ, ◌≡◌, ◌≢◌, refl, Bool, true, false, Option, none, some, List, [], ◌∷◌, ◌++◌, if◌then◌else◌,
  Outcome, ok, err, panic, nat_eq, list_eq, ◌==◌, ltb, leb,
}
use innen.Common.Text.{Text, codes}
use innen.Common.Json.{Json, str, obj, field, end}
use innen.Contract.{Contract}
use innen.Graph.Requests.{JournalEntry}
use innen.ContextSelection.Graph.{Float}
use innen.EvidenceClosure.Snapshot.{Snapshot, Host, snapshot}
use innen.EvidenceClosure.Closure.{Alternative, hop_limit, closure}
use innen.EvidenceClosure.Closed.{closure-IsClosed, closure-ends, IsClosed}
use innen.EvidenceClosure.Evaluation.{Output, Packet, blocked, evaluate, covered}
use innen.EvidenceClosure.Covers.{evaluate-IsCovering, IsCovering}

abbrev now : Text
now = codes "2026-01-01T00:00:00Z"

abbrev node_entry : Text → JournalEntry
node_entry id = record {
  id = codes "e";
  op = codes "node.upsert";
  payload = obj (field (codes "id") (str id) (field (codes "provenance") (str (codes "mail")) end));
  observed_utc = now;
}

abbrev edge_entry : JournalEntry
edge_entry = record {
  id = codes "f";
  op = codes "edge.assert";
  payload = obj (
      field (codes "from") (str (codes "n1")) (
        field (codes "provenance") (str (codes "mail")) (
          field (codes "to") (str (codes "n2"))
            (field (codes "type") (str (codes "depends_on")) end))));
  observed_utc = now;
}

-- A journal of three lines.
parse : Text → Option JournalEntry
parse line =
    if line == codes "a"
    then some (node_entry (codes "n1"))
    else if line == codes "b"
    then some (node_entry (codes "n2"))
    else if line == codes "c"
    then some edge_entry
    else none

abbrev digest : Text
digest = codes "0000000000000000000000000000000000000000000000000000000000000000"

abbrev host : Host
host = record {
  from_utf8 = some;
  parse_entry = parse;
  show = λ j. codes "{}";
  sha = λ s. digest;
  sha_bytes = λ s. digest;
  to_f32 = λ j. none;
  now = now;
}

abbrev raw : List ℕ
raw = 97 ∷ 10 ∷ 98 ∷ 10 ∷ 99 ∷ 10 ∷ []

abbrev question : Text
question = codes "why"

abbrev contract : Contract
contract = record {
  version = 1;
  question = question;
  scope_receipt = codes "r";
  scope_nodes = codes "n1" ∷ codes "n2" ∷ [];
  as_of = now;
  min_observed_utc = codes "2024-02-29T23:59:59Z";
  sources =
      (codes "n1", record { node_sha256 = digest })
      ∷ (codes "n2", record { node_sha256 = digest })
      ∷ [];
  facts =
      (record { id = codes "f1"; description = none; alternatives = (codes "n1" ∷ []) ∷ [] }) ∷ [];
  budget_tokens = 100;
  max_hops = 2;
  search_limit = 10;
}

-- Whole numbers for floats.
abbrev whole : Float
whole = record {
  F = ℕ;
  zero_float = 0;
  is_finite = λ x. true;
  float_lt = ltb;
  float_le = leb;
  sum_floats = λ xs. 0;
  float_div = λ gain cost. gain;
  of_u64 = λ n. n;
}

abbrev tokens : Json → Outcome Text ℕ
tokens j = ok 7

abbrev result : {E A : Type 0} → A → Outcome E A → A
result default (ok a) = a
result default (err e) = default
result default panic = default

abbrev nothing : Snapshot
nothing = record {
  graph = record { nodes = []; edges = [] };
  hash = [];
  citations = [];
  edge_citations = [];
  adjacency = [];
}

abbrev taken : Snapshot
taken = result nothing (snapshot host raw now)

snapshot-taken : snapshot host raw now ≡ ok taken
unfolding snapshot parse
snapshot-taken = refl

abbrev roots : List Text
roots = codes "n1" ∷ []

abbrev closed : Alternative
closed = result (record { roots = []; nodes = []; paths = [] }) (closure host contract taken roots)

closure-closed : closure host contract taken roots ≡ ok closed
unfolding closure snapshot parse
closure-closed = refl

-- The source that n1 depends on is in the closure.
two_nodes : closed.nodes ≡ codes "n1" ∷ codes "n2" ∷ []
unfolding closure snapshot parse
two_nodes = refl

-- Without hops there is no room for it.
no_hops :
    closure host (record contract { max_hops = 0 }) taken roots ≡ err (hop_limit, some (codes "n1"))
unfolding closure snapshot parse
no_hops = refl

closure-IsClosed_example : IsClosed host contract taken roots closed.nodes
closure-IsClosed_example =
    closure-IsClosed host raw now snapshot-taken contract roots closed closure-closed

closure-ends_example : closure host contract taken roots ≢ panic
closure-ends_example = closure-ends host raw now snapshot-taken contract roots

abbrev answered : Output
answered =
    result
      (record {
        resolution = blocked;
        missing_facts = [];
        rejected_alternatives = [];
        source_requests = [];
        packet = none;
      })
      (evaluate host whole tokens raw contract question)

evaluate-answered : evaluate host whole tokens raw contract question ≡ ok answered
unfolding evaluate parse innen.Common.Maps.lookup innen.Common.Maps.put innen.Common.Sets.insert
    innen.ContextSelection.Graph.closure innen.Common.Sets.union
evaluate-answered = refl

answered-covered : answered.resolution ≡ covered
unfolding evaluate parse innen.Common.Maps.lookup innen.Common.Maps.put innen.Common.Sets.insert
    innen.ContextSelection.Graph.closure innen.Common.Sets.union
answered-covered = refl

evaluate-IsCovering_example :
    (s : Snapshot) × (snapshot host raw contract.as_of ≡ ok s)
    × ((p : Packet) × (answered.packet ≡ some p) × IsCovering host contract s tokens p)
evaluate-IsCovering_example =
    evaluate-IsCovering host whole tokens raw contract question answered evaluate-answered
      answered-covered
