-- ===== src/Graph/Tests.antt =====
-- graph: instances of the theorems at concrete journals and triples.
use innen.Common
use innen.Common.{
  ℕ, ◌≡◌, ◌↔◌, ◌⊎◌, refl, true, false, Option, none, some, List, [], ◌∷◌, ◌++◌, map, filter, ◌==◌,
  nat_eq, list_eq, ltb, leb, unwrap_or, ok, err,
}
use innen.Common.Text.{Text, codes, to_ascii_lowercase, text_lt, text_le}
use innen.Common.Json.{num, Json, str, obj, Fields, end, field, get_field, text_of}
use innen.Graph.Vocabulary.{
  NodeType, conversation, decision, dataset, belongs_to, follows_up, project, located_at, node_name,
  edge_name, parse_node_type, parse_edge_type,
}
use innen.Graph.Vocabulary.Names.{parse-name-parse, parse_ignores_case}
use innen.Graph.Adjacency.{uri, bad_uri, validate}
use innen.Graph.Adjacency.Legal.{Legal, Refused, validate_iff, validate-err}
use innen.Graph.Replay.{
  Materialized, is_canonical_ts, observed, is_newer, upsert_value, materialize, is_valid_at,
}
use innen.Graph.Replay.Timestamps.{stamp, text_lt-stamp}
use innen.Graph.Replay.Edges.{effect, history, after, materialize-edges, materialize-append}
use innen.Graph.Replay.Nodes.{or_else, last_field, upsert_value-merges}
use innen.Graph.Requests.{from_type, to_endpoint, validate_strict, validate_known}
use innen.Graph.Requests.Strict.{validate_strict-accepts}

abbrev no_f32 : Json → Option ℕ
no_f32 _ = none

abbrev edge_payload : Fields
edge_payload =
    field (codes "from") (str (codes "t1"))
      (field (codes "to") (str (codes "p1")) (field (codes "type") (str (codes "belongs_to")) end))

abbrev journal_event : Text → Fields → Json
journal_event op payload = obj (
    field (codes "op") (str op) (
      field (codes "payload") (obj payload)
        (field observed (str (codes "2026-01-01T00:00:00Z")) end)))

abbrev asserted : List Json
asserted = journal_event (codes "edge.assert") edge_payload ∷ []

abbrev retracted : List Json
retracted = journal_event (codes "edge.retract") edge_payload ∷ []

abbrev node_payload : Text → Text → Fields
node_payload id kind = field (codes "id") (str id) (field (codes "type") (str kind) end)

abbrev new_year : Text
new_year = codes "2026-01-01T00:00:00Z"

abbrev new_year_eve : Text
new_year_eve = codes "2025-12-31T23:59:59Z"

abbrev empty : Materialized
empty = record {
  nodes = (codes "t1", obj (node_payload (codes "t1") (codes "Task"))) ∷ [];
  edges = [];
}

one_row : (materialize no_f32 new_year (asserted ++ retracted) none true).edges ≡ (
    record {
      from = codes "t1";
      edge = belongs_to;
      to = codes "p1";
      weight = none;
      valid_from = codes "2026-01-01T00:00:00Z";
      valid_until = none;
      retracted = true;
      observed_utc = codes "2026-01-01T00:00:00Z";
      provenance = none;
    }
    ∷ [])
unfolding materialize is_canonical_ts innen.Graph.Vocabulary.edge_beq parse_edge_type
one_row = refl

materialize-edges_example :
    ((materialize no_f32 new_year (asserted ++ retracted) none true).edges
      ≡ history (map (effect no_f32) (asserted ++ retracted)))
    × ((materialize no_f32 new_year (asserted ++ retracted) none false).edges
        ≡ filter
            (is_valid_at (unwrap_or none new_year))
            (history (map (effect no_f32) (asserted ++ retracted))))
materialize-edges_example = materialize-edges no_f32 new_year (asserted ++ retracted) none

materialize-append_example :
    (materialize no_f32 new_year (asserted ++ retracted) none true).edges
    ≡ map
        (after (map (effect no_f32) retracted))
        (materialize no_f32 new_year asserted none true).edges
      ++ history (map (effect no_f32) retracted)
materialize-append_example = materialize-append no_f32 new_year asserted retracted none

text_lt-stamp_example :
    (text_lt new_year_eve new_year ≡ ltb (stamp new_year_eve) (stamp new_year))
    × (text_le new_year_eve new_year ≡ leb (stamp new_year_eve) (stamp new_year))
unfolding is_canonical_ts
text_lt-stamp_example = text_lt-stamp new_year_eve new_year refl refl

validate_iff_example :
    (validate dataset located_at (uri (codes "s3://b")) none ≡ ok tt)
    ↔ Legal none dataset located_at (uri (codes "s3://b"))
validate_iff_example = validate_iff dataset located_at (uri (codes "s3://b")) none

validate-err_example :
    (validate dataset located_at (uri (codes "b")) none ≡ err (bad_uri (codes "b")))
    ↔ Refused none dataset located_at (uri (codes "b")) (bad_uri (codes "b"))
validate-err_example = validate-err dataset located_at (uri (codes "b")) none (bad_uri (codes "b"))

parse-name-parse_example :
    (parse_node_type (node_name (parse_node_type (codes "TASK"))) ≡ parse_node_type (codes "TASK"))
    × (parse_edge_type (edge_name (parse_edge_type (codes "TASK")))
        ≡ parse_edge_type (codes "TASK"))
parse-name-parse_example = parse-name-parse (codes "TASK")

parse_ignores_case_example :
    (parse_node_type (codes "TASK") ≡ parse_node_type (codes "task"))
    ⊎ (parse_node_type (codes "TASK") ≡ NodeType.custom (codes "TASK"))
      × (parse_node_type (codes "task") ≡ NodeType.custom (codes "task"))
unfolding to_ascii_lowercase
parse_ignores_case_example = parse_ignores_case (codes "TASK") (codes "task") refl

abbrev stored_node : Fields
stored_node = field observed (str new_year) end

abbrev late_payload : Fields
late_payload = field (codes "label") (str (codes "x")) (field observed (str new_year_eve) end)

upsert_value-merges_example :
    (final : Fields) × (upsert_value late_payload (some new_year_eve) (obj stored_node) ≡ obj final)
    × ((k : Text)
        → (k == observed) ≡ false
        → get_field k final ≡ or_else (last_field k late_payload) (get_field k stored_node))
    × ((t : Text)
        → (text_of observed stored_node ≡ some t)
          ⊎ (text_of observed late_payload ≡ some t)
          ⊎ (some new_year_eve ≡ some t)
        → is_newer final t ≡ true)
upsert_value-merges_example =
    upsert_value-merges late_payload stored_node (some new_year_eve)
      (λ h. absurd (cc h), (λ h. (new_year_eve, refl), tt))

-- A time that is no text makes way for the envelope's older one.
untimed-back :
    upsert_value (field observed (num 5) end) (some new_year_eve) (obj stored_node)
    ≡ obj (field observed (str new_year_eve) end)
unfolding upsert_value innen.Common.Json.insert_field
untimed-back = refl

validate_strict-accepts_example :
    validate_known
      (from_type (codes "t2") empty)
      (to_endpoint (codes "t1") empty)
      follows_up
      (codes "t1")
      none
    ≡ ok tt
unfolding validate_strict from_type to_endpoint parse_node_type
validate_strict-accepts_example =
    validate_strict-accepts empty (codes "t2") follows_up (codes "t1") none true refl
