-- ===== src/Graph/Requests/Strict.antt =====
-- graph/requests.rs: what the strict request accepts, and how the two requests compare.
use innen.Common.{
  ◌≡◌, refl, ◌⊎◌, inl, inr, Bool, true, false, Option, none, some, arith, Outcome, ok, err, panic,
  Bool-cases, Option-cases,
}
use innen.Common.Text.{Text}
use innen.Graph.Vocabulary.{NodeType, EdgeType}
use innen.Graph.Adjacency.{node, uri, AdjacencyError, is_uri_shape, validate}
use innen.Graph.Replay.{Materialized, find_node}
use innen.Graph.Requests.{
  from_type, to_endpoint, validate_known, validate_missing, validate_strict, validate_partial, into,
  kind_of,
}

into-ok : (m : Outcome AdjacencyError (Unit {0})) → into m ≡ ok tt → m ≡ ok tt
into-ok (ok u) h = refl
into-ok (err e) h = cc
into-ok panic h = cc

-- A target is known as a URI exactly when its text has the shape of one.
to_endpoint-cases :
    (to : Text) (g : Materialized)
    → ((is_uri_shape to ≡ true) × (to_endpoint to g ≡ some (uri to)))
      ⊎ ((is_uri_shape to ≡ false)
          × ((to_endpoint to g ≡ none) ⊎ ((n : NodeType) × (to_endpoint to g ≡ some (node n)))))
unfolding to_endpoint
to_endpoint-cases to g = elim (Bool-cases (is_uri_shape to)) [
  | inl shaped ↦ inl (shaped, rw shaped refl)
  | inr shapeless ↦ inr (
    shapeless,
    elim (Option-cases (find_node to g.nodes)) [
      | inl absent ↦ inl (rw (shapeless, absent) refl)
      | inr (stored, found) ↦ inr (kind_of stored, rw (shapeless, found) refl)
    ],
  )
]

accepts-uri :
    (from : Option NodeType) (id : Text) (edge : EdgeType) (to : Text) (provenance : Option Text)
    (allow_dangling : Bool)
    → is_uri_shape to ≡ true
    → validate_strict from (some (uri to)) id edge to provenance allow_dangling ≡ ok tt
    → validate_known from (some (uri to)) edge to provenance ≡ ok tt
unfolding validate_strict validate_known validate_missing validate_partial
accepts-uri (some f) id edge to provenance allow_dangling shaped h =
    into-ok (validate f edge (uri to) provenance) h
accepts-uri none id edge to provenance allow_dangling shaped h = ground arith

accepts-none :
    (from : Option NodeType) (id : Text) (edge : EdgeType) (to : Text) (provenance : Option Text)
    (allow_dangling : Bool)
    → is_uri_shape to ≡ false
    → validate_strict from none id edge to provenance allow_dangling ≡ ok tt
    → validate_known from none edge to provenance ≡ ok tt
unfolding validate_strict validate_known validate_missing validate_partial
accepts-none (some f) id edge to provenance allow_dangling shapeless h = ground arith
accepts-none none id edge to provenance allow_dangling shapeless h = ground arith

accepts-node :
    (from : Option NodeType) (id : Text) (n : NodeType) (edge : EdgeType) (to : Text)
    (provenance : Option Text) (allow_dangling : Bool)
    → is_uri_shape to ≡ false
    → validate_strict from (some (node n)) id edge to provenance allow_dangling ≡ ok tt
    → validate_known from (some (node n)) edge to provenance ≡ ok tt
unfolding validate_strict validate_known validate_missing validate_partial
accepts-node (some f) id n edge to provenance allow_dangling shapeless h =
    into-ok (validate f edge (node n) provenance) h
accepts-node none id n edge to provenance allow_dangling shapeless h = ground arith

-- What the strict request accepts on a graph, dangling endpoints allowed or not, the other request
-- accepts on the same graph too.
pub validate_strict-accepts :
    (g : Materialized) (from : Text) (edge : EdgeType) (to : Text) (provenance : Option Text)
    (allow_dangling : Bool)
    → validate_strict (from_type from g) (to_endpoint to g) from edge to provenance allow_dangling
      ≡ ok tt
    → validate_known (from_type from g) (to_endpoint to g) edge to provenance ≡ ok tt
validate_strict-accepts g from edge to provenance allow_dangling h = elim (to_endpoint-cases to g) [
  | inl (shaped, is_uri) ↦ rw is_uri (
      accepts-uri (from_type from g) from edge to provenance allow_dangling shaped (rw is_uri at h))
  | inr (shapeless, inl absent) ↦ rw absent (
      accepts-none (from_type from g) from edge to provenance allow_dangling shapeless
        (rw absent at h))
  | inr (shapeless, inr (n, is_node)) ↦ rw is_node (
      accepts-node (from_type from g) from n edge to provenance allow_dangling shapeless
        (rw is_node at h))
]
