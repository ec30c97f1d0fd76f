-- ===== src/Graph/Requests.antt =====
-- graph/requests.rs: the checks before the command line writes a node or an edge. The journal is an
-- argument: the entries that it yields, or the text of its file with `parse_entry` for `from_str`.
pub mod Strict
use innen.Common.{
  ℕ, ◌+◌, Bool, true, false, not, ◌||◌, ◌&&◌, Option, none, some, List, [], ◌∷◌, map, if◌then◌else◌,
  is_none, unwrap_or, nat_eq, list_eq, Outcome, ok, err, panic, reject_if, ◌>>◌, ◌>>=◌, eqb,
}
use innen.Common.Text.{Text, codes, is_blank, starts_with}
use innen.Common.Json.{Json, null, str, obj, Fields, end, field, get, as_str, and_then}
use innen.Graph.Vocabulary.{
  NodeType, EdgeType, edge_name, parse_node_type, is_custom_node, is_custom_edge,
}
use innen.Graph.Adjacency.{
  Endpoint, node, uri, AdjacencyError, illegal_pair, missing_provenance, has_valid_provenance,
  is_uri_shape, locates, is_custom_endpoint, validate,
}
use innen.Graph.Replay.{Materialized, materialize, find_node, observed}

pub data NodeProvenanceError : Type 0 where
  missing_node_provenance : NodeProvenanceError

unfoldable pub check_node_provenance :
    NodeType → Option Text → Outcome NodeProvenanceError (Unit {0})
check_node_provenance kind provenance =
    reject_if (is_custom_node kind && not (has_valid_provenance provenance)) missing_node_provenance

-- A line of the journal.
pub record JournalEntry : Type 0 where
  pub id : Text
  pub op : Text
  pub payload : Json
  pub observed_utc : Text

unfoldable pub event : JournalEntry → Json
event e = obj (
    field (codes "op") (str e.op)
      (field (codes "payload") e.payload (field observed (str e.observed_utc) end)))

-- `ty.parse()` of the stored type.
unfoldable pub kind_of : Json → NodeType
kind_of stored =
    parse_node_type (unwrap_or (and_then (get (codes "type") stored) as_str) (codes "Custom"))

unfoldable pub from_type : Text → Materialized → Option NodeType
unfolding kind_of find_node
from_type from g = and_then (find_node from g.nodes) λ stored. some (kind_of stored)

unfoldable pub to_endpoint : Text → Materialized → Option Endpoint
unfolding kind_of find_node is_uri_shape
to_endpoint to g =
    if is_uri_shape to
    then some (uri to)
    else and_then (find_node to g.nodes) λ stored. some (node (kind_of stored))

-- The `matches!` on the edges that may point at a URI while an endpoint is unknown.
abbrev pub may_locate : EdgeType → Bool
may_locate edge = locates edge || is_custom_edge edge

-- The `else` branch of `validate_relate_request`.
unfoldable pub validate_missing : EdgeType → Text → Option Text → Outcome AdjacencyError (Unit {0})
unfolding is_uri_shape edge_name
validate_missing edge to provenance =
    if is_custom_edge edge || is_uri_shape to
    then (do
      reject_if (is_uri_shape to && not (may_locate edge))
          (illegal_pair (codes "?") (edge_name edge) to)
      reject_if (is_custom_edge edge && not (has_valid_provenance provenance)) missing_provenance)
    else ok tt

-- The endpoints that are known, and the check they call for.
unfoldable pub validate_known :
    Option NodeType
    → Option Endpoint
    → EdgeType
    → Text
    → Option Text
    → Outcome AdjacencyError (Unit {0})
unfolding validate validate_missing
validate_known (some from) (some to) edge name provenance = validate from edge to provenance
validate_known _ _ edge name provenance = validate_missing edge name provenance

pub data RelateRequestError : Type 0 where
  journal_read : (detail : Text) → RelateRequestError
  invalid_journal : (line : ℕ) (detail : Text) → RelateRequestError
  missing_endpoint : (role id : Text) → RelateRequestError
  adjacency : AdjacencyError → RelateRequestError

-- `map_err(Into::into)`.
abbrev pub into : Outcome AdjacencyError (Unit {0}) → Outcome RelateRequestError (Unit {0})
into (ok u) = ok u
into (err e) = err (adjacency e)
into panic = panic

abbrev pub is_custom_target : Option Endpoint → Bool
is_custom_target (some to) = is_custom_endpoint to
is_custom_target none = false

abbrev pub is_custom_from : Option NodeType → Bool
is_custom_from (some from) = is_custom_node from
is_custom_from none = false

-- The URI check of the strict request, once an endpoint is unknown.
abbrev pub illegal_uri : EdgeType → Option Endpoint → Outcome RelateRequestError (Unit {0})
illegal_uri edge (some (uri u)) =
    reject_if (not (may_locate edge)) (adjacency (illegal_pair (codes "?") (edge_name edge) u))
illegal_uri edge _ = ok tt

unfoldable pub validate_partial :
    Option NodeType
    → EdgeType
    → Option Endpoint
    → Option Text
    → Outcome RelateRequestError (Unit {0})
unfolding edge_name
validate_partial from edge to provenance = do
  illegal_uri edge to
  reject_if
      ((is_custom_from from || is_custom_edge edge || is_custom_target to)
        && not (has_valid_provenance provenance))
      (adjacency missing_provenance)

-- The part of the strict request after both endpoints are looked up.
unfoldable pub validate_strict :
    Option NodeType
    → Option Endpoint
    → Text
    → EdgeType
    → Text
    → Option Text
    → Bool
    → Outcome RelateRequestError (Unit {0})
unfolding validate validate_partial
validate_strict from to from_id edge to_id provenance allow_dangling = do
  reject_if (is_none from && not allow_dangling) (missing_endpoint (codes "--from") from_id)
  reject_if (is_none to && not allow_dangling) (missing_endpoint (codes "--to") to_id)
  elim from [
    | none ↦ validate_partial none edge to provenance
    | some f ↦ elim to [
      | none ↦ validate_partial (some f) edge none provenance
      | some t ↦ into (validate f edge t provenance)
    ]
  ]

-- `read_to_string`: the text, no such file, or another failure.
pub data FileRead : Type 0 where
  content : Text → FileRead
  not_found : FileRead
  failed : Text → FileRead

abbrev pub push_char : ℕ → List Text → List Text
push_char c [] = (c ∷ []) ∷ []
push_char c (line ∷ rest) = (c ∷ line) ∷ rest

-- `str::lines`: a line ends before `\n` or `\r\n`, and no line follows the last `\n`.
unfoldable pub lines : Text → List Text
lines [] = []
lines (c ∷ s) =
    let rest = lines s in
    if eqb c 10
    then [] ∷ rest
    else if eqb c 13 && starts_with s (10 ∷ [])
    then rest
    else push_char c rest

module _ (to_f32 : Json → Option ℕ) (now : Text) where
  -- `entries` is `none` when the journal cannot be opened or read.
  unfoldable pub validate_relate_request :
      Option (List JournalEntry)
      → Text
      → EdgeType
      → Text
      → Option Text
      → Outcome AdjacencyError (Unit {0})
  unfolding event materialize from_type to_endpoint validate_known
  validate_relate_request none from edge to provenance = validate_known none none edge to provenance
  validate_relate_request (some entries) from edge to provenance =
      let g = materialize to_f32 now (map event entries) none true in
      validate_known (from_type from g) (to_endpoint to g) edge to provenance

  module _ (parse_entry : Text → Outcome Text JournalEntry) where
    abbrev pub parse_line : ℕ → Text → Outcome RelateRequestError Json
    parse_line index line = elim (parse_entry line) [
      | ok e ↦ ok (event e)
      | err detail ↦ err (invalid_journal (index + 1) detail)
      | panic ↦ panic
    ]

    -- The loop over `content.lines().enumerate()`.
    unfoldable pub read_events : ℕ → List Text → Outcome RelateRequestError (List Json)
    unfolding is_blank event
    read_events index [] = ok []
    read_events index (line ∷ rest) =
        let events = read_events (index + 1) rest in
        if is_blank line
        then events
        else (parse_line index line >>= λ e. events >>= λ es. ok (e ∷ es))

    abbrev pub read_content : FileRead → Outcome RelateRequestError Text
    read_content (content text) = ok text
    read_content not_found = ok []
    read_content (failed detail) = err (journal_read detail)

    unfoldable pub validate_relate_request_strict :
        FileRead
        → Text
        → EdgeType
        → Text
        → Option Text
        → Bool
        → Outcome RelateRequestError (Unit {0})
    unfolding read_events lines materialize from_type to_endpoint validate_strict
    validate_relate_request_strict file from edge to provenance allow_dangling =
        read_content file >>= λ text. read_events 0 (lines text) >>= λ events.
        let g = materialize to_f32 now events none true in
        validate_strict (from_type from g) (to_endpoint to g) from edge to provenance allow_dangling
