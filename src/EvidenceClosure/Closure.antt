-- ===== src/EvidenceClosure/Closure.antt =====
-- evidence_closure/closure.rs: which sources are eligible, and the closure of a fact's roots under
-- DEPENDS_ON, with a limit on the hops.
use innen.Common.{
  ℕ, zero, suc, ◌+◌, Bool, true, not, ◌||◌, ◌&&◌, Option, none, some, List, [], ◌∷◌, ◌++◌, map, leb,
  length, get_elem?, if◌then◌else◌, contains, nat_eq, list_eq, ◌==◌, Outcome, ok, err, panic,
  reject_if, ◌>>=◌, ◌>>◌,
}
use innen.Common.Text.{Text, codes, is_blank, text_lt, to_ascii_lowercase}
use innen.Common.Json.{Json, Items, arr, obj, nil, cons, get, insert_field, as_str, and_then}
use innen.Common.Dicts.{lookup_text, values_at, insert_text}
use innen.Contract.{Contract, timestamp}
use innen.Graph.Vocabulary.{edge_name}
use innen.Graph.Replay.{StoredEdge, find_node, observed}
use innen.EvidenceClosure.Snapshot.{Snapshot, Host, edge_receipt, depends_on, contradicts}

pub data Reason : Type 0 where
  scope_or_source_unavailable source_pin_missing source_changed observation_time_unknown : Reason
  observation_outside_window source_provenance_missing unresolved_conflict hop_limit : Reason
  dependency_provenance_missing dependency_trace_missing : Reason

abbrev pub Problem : Type 0
Problem = Reason × Option Text

pub record Alternative : Type 0 where
  pub roots : List Text
  pub nodes : List Text
  pub paths : List Json

-- The variables of the loop. `seen_edges` is only asked for its members.
pub record Walk : Type 0 where
  pub nodes : List Text
  pub queue : List (Text × ℕ)
  pub paths : List Json
  pub seen_edges : List Text

abbrev pub items_of : List Json → Items
items_of [] = nil
items_of (j ∷ js) = cons j (items_of js)

-- `is_none_or(|s| s.trim().is_empty())`.
abbrev pub is_missing : Option Text → Bool
is_missing none = true
is_missing (some s) = is_blank s

-- `.filter(|s| timestamp(s))`.
abbrev pub observed_at : Json → Option Text
observed_at node =
    and_then (and_then (get observed node) as_str) (λ s. if timestamp s then some s else none)

abbrev pub problem : Contract → Reason → Text → Problem
problem c reason id = (reason, if contains c.scope_nodes id then some id else none)

-- `map_err(|r| problem(r, id))`.
abbrev pub map_problem : Contract → Text → Outcome Reason (Unit {0}) → Outcome Problem (Unit {0})
map_problem c id (ok u) = ok u
map_problem c id (err r) = err (problem c r id)
map_problem c id panic = panic

-- The other end of an edge.
abbrev pub other_end : Text → StoredEdge → Text
other_end id e = if e.from == id then e.to else e.from

abbrev pub conflict : Contract → Text → Problem
conflict c other =
    if contains c.scope_nodes other
    then problem c unresolved_conflict other
    else (scope_or_source_unavailable, none)

abbrev pub start_queue : List Text → List (Text × ℕ)
start_queue roots = map (λ id. (id, 0)) roots

abbrev pub total : List (Text × List ℕ) → ℕ
total [] = 0
total ((id, indexes) ∷ m) = length indexes + total m

module _ (host : Host) (c : Contract) (s : Snapshot) where
  -- What is asked of the node of an id, its grant being there. A grant's hash is of hex digits.
  unfoldable pub check_node : Text → Json → Outcome Reason (Unit {0})
  unfolding to_ascii_lowercase timestamp text_lt is_blank
  check_node pin node = do
    reject_if (not (host.sha (host.show node) == to_ascii_lowercase pin)) source_changed
    elim (observed_at node) [
      | none ↦ err observation_time_unknown
      | some at ↦ do
        reject_if (text_lt at c.min_observed_utc || text_lt c.as_of at) observation_outside_window
        reject_if (is_missing (and_then (get (codes "provenance") node) as_str))
            source_provenance_missing
    ]

  unfoldable pub eligible : Text → Outcome Reason (Unit {0})
  unfolding check_node find_node lookup_text
  eligible id = do
    reject_if (not (contains c.scope_nodes id)) scope_or_source_unavailable
    elim (lookup_text id c.sources) [
      | none ↦ err source_pin_missing
      | some grant ↦ elim (find_node id s.graph.nodes) [
        | none ↦ err scope_or_source_unavailable
        | some node ↦ check_node grant.node_sha256 node
      ]
    ]

  -- The receipt with its citations goes to the paths once, and the target to the queue if it is new.
  unfoldable pub take_edge : ℕ → StoredEdge → List Json → Walk → Walk
  take_edge depth e citations w =
      let receipt =
        obj
          (insert_field (codes "journal_citations") (arr (items_of citations)) (edge_receipt e)) in
      let text = host.show receipt in
      let known = contains w.seen_edges text in
      record {
        nodes = w.nodes;
        queue = if contains w.nodes e.to then w.queue else w.queue ++ (e.to, suc depth) ∷ [];
        paths = if known then w.paths else w.paths ++ receipt ∷ [];
        seen_edges = if known then w.seen_edges else text ∷ w.seen_edges;
      }

  -- A dependency of the node, with the checks that also an edge back into the closure has to pass.
  unfoldable pub follow : Text → ℕ → StoredEdge → Walk → Outcome Problem Walk
  unfolding eligible take_edge is_blank lookup_text
  follow id depth e w = do
    map_problem c e.to (eligible e.to)
    reject_if (is_missing e.provenance) (problem c dependency_provenance_missing id)
    reject_if (leb c.max_hops depth && not (contains w.nodes e.to)) (problem c hop_limit id)
    elim (lookup_text (host.show (obj (edge_receipt e))) s.edge_citations) [
      | none ↦ err (problem c dependency_trace_missing id)
      | some citations ↦ ok (take_edge depth e citations w)
    ]

  unfoldable pub visit_edge : Text → ℕ → StoredEdge → Walk → Outcome Problem Walk
  unfolding follow
  visit_edge id depth e w =
      if edge_name e.edge == contradicts && (e.from == id || e.to == id)
      then err (conflict c (other_end id e))
      else if not (e.from == id) || not (edge_name e.edge == depends_on)
      then ok w
      else follow id depth e w

  -- The `for` loop over the indexes of a node's edges.
  unfoldable pub visit_edges : Text → ℕ → List ℕ → Walk → Outcome Problem Walk
  unfolding visit_edge
  visit_edges id depth [] w = ok w
  visit_edges id depth (index ∷ indexes) w = elim (get_elem? s.graph.edges index) [
    | none ↦ panic
    | some e ↦ visit_edge id depth e w >>= λ w'. visit_edges id depth indexes w'
  ]

  -- A node that the queue gives and that is new.
  unfoldable pub visit : Text → ℕ → Walk → Outcome Problem Walk
  unfolding visit_edges eligible insert_text lookup_text
  visit id depth w = do
    map_problem c id (eligible id)
    visit_edges id depth (values_at id s.adjacency) (record w { nodes = insert_text id w.nodes })

  -- The `while` loop; without fuel it panics.
  unfoldable pub drain : ℕ → List (Text × ℕ) → Walk → Outcome Problem Walk
  unfolding visit
  drain fuel [] w = ok w
  drain zero (entry ∷ queue) w = panic
  drain (suc fuel) ((id, depth) ∷ queue) w =
      let skipped = drain fuel queue w in
      let visited = visit id depth (record w { queue = queue }) >>= λ w'. drain fuel w'.queue w' in
      if contains w.nodes id then skipped else visited

  unfoldable pub closure : List Text → Outcome Problem Alternative
  unfolding drain
  closure roots = do
    w ←
        drain (length roots + total s.adjacency) (start_queue roots)
          (record { nodes = []; queue = []; paths = []; seen_edges = [] })
    ok (record { roots = roots; nodes = w.nodes; paths = w.paths })
