-- ===== src/EvidenceClosure/Snapshot.antt =====
-- evidence_closure/snapshot.rs: the journal up to a time, with a citation for each node and each edge.
use innen.Common.{
  ℕ, suc, Bool, true, false, not, ◌||◌, Option, none, some, List, [], ◌∷◌, ◌++◌, if◌then◌else◌,
  is_none, any, nat_eq, list_eq, ◌==◌, Outcome, ok, err, reject_if, ◌>>=◌, ◌>>◌,
}
use innen.Common.Text.{Text, codes, is_blank, text_lt, text_le, to_ascii_uppercase}
use innen.Common.Json.{
  Json, Fields, null, num, str, obj, end, field, get, insert_field, as_str, and_then,
}
use innen.Common.Dicts.{push_at}
use innen.Contract.{timestamp}
use innen.Graph.Vocabulary.{edge_name, parse_edge_type}
use innen.Graph.Replay.{Materialized, StoredEdge, materialize, observed}
use innen.Graph.Requests.{JournalEntry, event, lines}

pub data SnapshotError : Type 0 where
  not_utf8 malformed_edge invalid_validity identity_missing : SnapshotError
  invalid_record noncanonical_time unsupported_operation : (line : ℕ) → SnapshotError

pub record Snapshot : Type 0 where
  pub graph : Materialized
  pub hash : Text
  pub citations : List (Text × List Json)
  pub edge_citations : List (Text × List Json)
  pub adjacency : List (Text × List ℕ)

-- The variables of the loop over the lines.
pub record Building : Type 0 where
  pub values : List Json
  pub citations : List (Text × List Json)
  pub edge_citations : List (Text × List Json)

abbrev pub text_or_null : Option Text → Json
text_or_null none = null
text_or_null (some s) = str s

-- A JSON object with its keys in order, as `json!` builds it.
unfoldable pub edge_receipt : StoredEdge → Fields
edge_receipt e = field (codes "from") (str e.from) (
    field (codes "observed_utc") (str e.observed_utc) (
      field (codes "provenance") (text_or_null e.provenance) (
        field (codes "to") (str e.to) (
          field (codes "type") (str (edge_name e.edge)) (
            field (codes "valid_from") (str e.valid_from)
              (field (codes "valid_until") (text_or_null e.valid_until) end))))))

abbrev pub depends_on : Text
depends_on = codes "DEPENDS_ON"

abbrev pub contradicts : Text
contradicts = codes "CONTRADICTS"

abbrev pub lacks_text : Json → Text → Bool
lacks_text payload k = is_none (and_then (get k payload) as_str)

abbrev pub is_bad_time : Option Json → Bool
is_bad_time none = false
is_bad_time (some null) = false
is_bad_time (some (str s)) = not (timestamp s)
is_bad_time (some _) = true

-- `e.payload["type"] = kind`, on a payload that is an object.
abbrev pub set_type : Text → Json → Json
set_type kind (obj fields) = obj (insert_field (codes "type") (str kind) fields)
set_type kind payload = payload

-- The two kinds that the closure follows are recognized in any case.
unfoldable pub fold_kind : Json → Json
fold_kind payload = elim (and_then (get (codes "type") payload) as_str) [
  | none ↦ payload
  | some kind ↦
      let upper = to_ascii_uppercase kind in
      if upper == depends_on || upper == contradicts then set_type upper payload else payload
]

abbrev pub is_edge_op : Text → Bool
is_edge_op op = op == codes "edge.assert" || op == codes "edge.retract"

abbrev pub is_supported : Text → Bool
is_supported op = op == codes "node.upsert" || is_edge_op op || op == codes "config.set"

unfoldable pub read_payload : JournalEntry → Outcome SnapshotError Json
unfolding fold_kind
read_payload e =
    if is_edge_op e.op
    then (do
      reject_if (any (lacks_text e.payload) (codes "from" ∷ codes "to" ∷ codes "type" ∷ []))
          malformed_edge
      reject_if
          (any (λ k. is_bad_time (get k (fold_kind e.payload)))
            (codes "valid_from" ∷ codes "valid_until" ∷ observed ∷ []))
          invalid_validity
      ok (fold_kind e.payload))
    else ok e.payload

abbrev pub citation : ℕ → JournalEntry → Json
citation line e = obj (
    field (codes "at") (str e.observed_utc)
      (field (codes "event") (str e.id) (field (codes "line") (num line) end)))

-- The citation of a node, by its id.
unfoldable pub cite_node : ℕ → JournalEntry → Building → Outcome SnapshotError Building
cite_node line e b =
    if e.op == codes "node.upsert"
    then elim (and_then (get (codes "id") e.payload) as_str) [
      | none ↦ err identity_missing
      | some id ↦ ok (record b { citations = push_at id (citation line e) b.citations })
    ]
    else ok b

-- `from_utf8`, `serde_json`'s reader of a line and writer of a value, `sha256_hex`, the conversion of a
-- weight, and the current time.
pub record Host : Type 0 where
  pub from_utf8 : List ℕ → Option Text
  pub parse_entry : Text → Option JournalEntry
  pub show : Json → Text
  pub sha : Text → Text
  pub sha_bytes : List ℕ → Text
  pub to_f32 : Json → Option ℕ
  pub now : Text

-- The indexes of a node's edges that the closure looks at.
unfoldable pub link_edge : ℕ → StoredEdge → List (Text × List ℕ) → List (Text × List ℕ)
link_edge i e m =
    if e.retracted
    then m
    else if edge_name e.edge == depends_on
    then push_at e.from i m
    else if edge_name e.edge == contradicts
    then (if e.from == e.to then push_at e.from i m else push_at e.to i (push_at e.from i m))
    else m

unfoldable pub link_edges : ℕ → List StoredEdge → List (Text × List ℕ) → List (Text × List ℕ)
unfolding link_edge
link_edges i [] m = m
link_edges i (e ∷ es) m = link_edges (suc i) es (link_edge i e m)

module _ (host : Host) where
  abbrev pub first_receipt : List StoredEdge → Option Text
  first_receipt [] = none
  first_receipt (e ∷ es) = some (host.show (obj (edge_receipt e)))

  -- The receipt that the event alone would give, at the cutoff.
  unfoldable pub cite_edge : Text → ℕ → JournalEntry → Building → Building
  cite_edge cutoff line e b =
      if e.op == codes "edge.assert"
      then elim (first_receipt
          (materialize host.to_f32 host.now (event e ∷ []) (some cutoff) true).edges) [
            | none ↦ b
            | some receipt ↦ record b {
              edge_citations = push_at receipt (citation line e) b.edge_citations;
            }
          ]
      else b

  -- What an entry adds, its time being checked.
  unfoldable pub add_entry : Text → ℕ → JournalEntry → Building → Outcome SnapshotError Building
  unfolding read_payload cite_node cite_edge
  add_entry cutoff line e b = do
    payload ← read_payload e
    reject_if (not (is_supported e.op)) (unsupported_operation line)
    let read : JournalEntry = record e { payload = payload }
    cited ← cite_node line read b
    let traced = cite_edge cutoff line read cited
    ok (record traced { values = traced.values ++ event read ∷ [] })

  unfoldable pub add_line : Text → ℕ → Text → Building → Outcome SnapshotError Building
  unfolding add_entry is_blank timestamp text_lt
  add_line cutoff line text b = if is_blank text then ok b else elim (host.parse_entry text) [
    | none ↦ err (invalid_record line)
    | some e ↦
        if not (timestamp e.observed_utc)
        then err (noncanonical_time line)
        else if text_lt cutoff e.observed_utc
        then ok b
        else add_entry cutoff line e b
  ]

  -- The loop over the lines; `line` is the number of the first, from 1.
  unfoldable pub add_lines : Text → ℕ → List Text → Building → Outcome SnapshotError Building
  unfolding add_line
  add_lines cutoff line [] b = ok b
  add_lines cutoff line (text ∷ texts) b = do
    b' ← add_line cutoff line text b
    add_lines cutoff (suc line) texts b'

  abbrev pub finish : List ℕ → Text → Building → Snapshot
  finish raw cutoff b =
      let graph = materialize host.to_f32 host.now b.values (some cutoff) false in
      record {
        graph = graph;
        hash = host.sha_bytes raw;
        citations = b.citations;
        edge_citations = b.edge_citations;
        adjacency = link_edges 0 graph.edges [];
      }

  unfoldable pub snapshot : List ℕ → Text → Outcome SnapshotError Snapshot
  unfolding add_lines link_edges lines to_ascii_uppercase insert_field materialize event text_le
      edge_name parse_edge_type push_at edge_receipt
  snapshot raw cutoff = elim (host.from_utf8 raw) [
    | none ↦ err not_utf8
    | some text ↦ do
      b ←
          add_lines cutoff 1 (lines text)
            (record { values = []; citations = []; edge_citations = [] })
      ok (finish raw cutoff b)
  ]
