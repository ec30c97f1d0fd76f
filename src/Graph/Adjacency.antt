-- ===== src/Graph/Adjacency.antt =====
-- graph/adjacency.rs: which triple of a node kind, an edge kind and an endpoint may be written.
pub mod Table
pub mod Legal
use innen.Common.{
  Bool, true, false, not, ◌||◌, ◌&&◌, Option, none, some, List, [], ◌∷◌, if◌then◌else◌, is_some_and,
  is_empty, contains, nat_eq, list_eq, pair_eq, ◌==◌, Outcome, ok, err, reject_if, ◌>>◌, ◌>>=◌,
}
use innen.Common.Text.{Text, codes, is_blank, starts_with, contains_text}
use innen.Graph.Vocabulary.{
  NodeType, EdgeType, conversation, task, decision, experiment, dataset, model, artifact, project,
  product, belongs_to, follows_up, supports, evaluates, discussed_in, derived_from, supersedes,
  located_at, originated_at, contains_edge, part_of, informs, node_name, edge_name, is_custom_node,
  is_custom_edge, node_eq, edge_eq,
}

pub data Endpoint : Type 0 where
  node : NodeType → Endpoint
  uri : Text → Endpoint

pub data AdjacencyError : Type 0 where
  illegal_pair : (from edge to : Text) → AdjacencyError
  bad_uri : Text → AdjacencyError
  missing_provenance : AdjacencyError

-- `Display` of an endpoint.
unfoldable pub endpoint_name : Endpoint → Text
unfolding node_name
endpoint_name (node n) = node_name n
endpoint_name (uri u) = u

abbrev pub has_valid_provenance : Option Text → Bool
has_valid_provenance provenance = is_some_and provenance (λ p. not (is_blank p))

unfoldable pub illegal : NodeType → EdgeType → Endpoint → AdjacencyError
unfolding endpoint_name edge_name
illegal from edge to = illegal_pair (node_name from) (edge_name edge) (endpoint_name to)

-- `is_uri_shape`, the condition that `validate` writes out too.
unfoldable pub is_uri_shape : Text → Bool
is_uri_shape s = not (is_empty s) && (starts_with s (codes "/") || contains_text s (codes "://"))

unfoldable pub locates : EdgeType → Bool
locates located_at = true
locates originated_at = true
locates _ = false

abbrev pub is_custom_endpoint : Endpoint → Bool
is_custom_endpoint (node n) = is_custom_node n
is_custom_endpoint (uri u) = false

-- The rows of the table whose target is a URI.
abbrev pub uri_rows : List (NodeType × EdgeType)
uri_rows =
    (dataset, located_at)
    ∷ (model, located_at)
    ∷ (artifact, located_at)
    ∷ (dataset, originated_at)
    ∷ (model, originated_at)
    ∷ (artifact, originated_at)
    ∷ []

-- The rows of the table whose target is a node.
abbrev pub node_rows : List (NodeType × EdgeType × NodeType)
node_rows =
    (conversation, belongs_to, project)
    ∷ (task, belongs_to, project)
    ∷ (decision, belongs_to, project)
    ∷ (experiment, belongs_to, project)
    ∷ (artifact, belongs_to, project)
    ∷ (conversation, follows_up, conversation)
    ∷ (conversation, follows_up, task)
    ∷ (task, follows_up, task)
    ∷ (task, follows_up, decision)
    ∷ (task, follows_up, conversation)
    ∷ (task, follows_up, artifact)
    ∷ (decision, follows_up, task)
    ∷ (decision, follows_up, decision)
    ∷ (decision, supports, task)
    ∷ (decision, supports, decision)
    ∷ (experiment, supports, task)
    ∷ (experiment, supports, decision)
    ∷ (experiment, evaluates, product)
    ∷ (experiment, evaluates, dataset)
    ∷ (experiment, evaluates, model)
    ∷ (experiment, discussed_in, conversation)
    ∷ (decision, discussed_in, conversation)
    ∷ (model, derived_from, dataset)
    ∷ (model, derived_from, model)
    ∷ (model, derived_from, conversation)
    ∷ (dataset, derived_from, dataset)
    ∷ (dataset, derived_from, model)
    ∷ (dataset, derived_from, conversation)
    ∷ (artifact, derived_from, dataset)
    ∷ (artifact, derived_from, model)
    ∷ (artifact, derived_from, conversation)
    ∷ (artifact, supersedes, artifact)
    ∷ (decision, supersedes, decision)
    ∷ (artifact, contains_edge, artifact)
    ∷ (artifact, part_of, artifact)
    ∷ (product, informs, project)
    ∷ (experiment, informs, project)
    ∷ []

unfoldable pub is_uri_row : NodeType → EdgeType → Bool
is_uri_row from edge = contains uri_rows (from, edge)

-- `matches!` over the rows.
unfoldable pub has_row :
    List (NodeType × EdgeType × NodeType) → NodeType → EdgeType → NodeType → Bool
has_row [] from edge to = false
has_row ((f, e, t) ∷ rows) from edge to =
    f == from && e == edge && t == to || has_row rows from edge to

unfoldable pub is_node_row : NodeType → EdgeType → NodeType → Bool
unfolding has_row
is_node_row from edge to = has_row node_rows from edge to

unfoldable pub custom_party : NodeType → EdgeType → Endpoint → Bool
custom_party from edge to = is_custom_node from || is_custom_edge edge || is_custom_endpoint to

-- The part of `validate` after the check of the provenance.
unfoldable pub validate_endpoint :
    NodeType → EdgeType → Endpoint → Outcome AdjacencyError (Unit {0})
validate_endpoint from edge (uri u) = do
  reject_if (not (locates edge)) (illegal from edge (uri u))
  reject_if (not (is_uri_shape u)) (bad_uri u)
  reject_if (not (custom_party from edge (uri u)) && not (is_uri_row from edge))
      (illegal from edge (uri u))
validate_endpoint from edge (node to) =
    reject_if (not (custom_party from edge (node to)) && not (is_node_row from edge to))
      (illegal from edge (node to))

unfoldable pub validate :
    NodeType → EdgeType → Endpoint → Option Text → Outcome AdjacencyError (Unit {0})
unfolding validate_endpoint
validate from edge to provenance = do
  reject_if (custom_party from edge to && not (has_valid_provenance provenance)) missing_provenance
  validate_endpoint from edge to
