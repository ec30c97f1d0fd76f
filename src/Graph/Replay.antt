-- ===== src/Graph/Replay.antt =====
-- graph/materialize.rs: the replay of journal events into nodes and edges. A map of nodes is an
-- association list; `observed_utc_now` is the argument `now`, and `f64 as f32` the argument `to_f32`.
pub mod Timestamps
pub mod Edges
pub mod Nodes
use innen.Common.{
  ℕ, Bool, true, false, not, ◌||◌, ◌&&◌, Option, none, some, List, [], ◌∷◌, ◌++◌, map,
  if◌then◌else◌, is_none, unwrap_or, is_some_and, is_empty, all, filter, length, get_elem?, eqb,
  nat_eq, list_eq, ◌==◌,
}
use innen.Common.Text.{Text, codes, is_ascii_digit, text_le}
use innen.Common.Json.{
  Json, null, bool, num, neg, real, str, arr, obj, Fields, end, field, get_field, insert_field, get,
  as_str, and_then, text_of,
}
use innen.Graph.Vocabulary.{EdgeType, parse_edge_type, edge_eq}

pub record StoredEdge : Type 0 where
  pub from : Text
  pub edge : EdgeType
  pub to : Text
  pub weight : Option ℕ
  pub valid_from : Text
  pub valid_until : Option Text
  pub retracted : Bool
  pub observed_utc : Text
  pub provenance : Option Text

pub record Materialized : Type 0 where
  pub nodes : List (Text × Json)
  pub edges : List StoredEdge

-- `b[i]`, where the length is known to be 20.
abbrev pub byte_is : Text → ℕ → ℕ → Bool
byte_is s i c = is_some_and (get_elem? s i) (eqb c)

abbrev pub digit_positions : List ℕ
digit_positions = 0 ∷ 1 ∷ 2 ∷ 3 ∷ 5 ∷ 6 ∷ 8 ∷ 9 ∷ 11 ∷ 12 ∷ 14 ∷ 15 ∷ 17 ∷ 18 ∷ []

abbrev pub digit_at : Text → ℕ → Bool
digit_at s i = is_some_and (get_elem? s i) is_ascii_digit

unfoldable pub is_canonical_ts : Text → Bool
is_canonical_ts s =
    eqb (length s) 20
    && (byte_is s 4 b'-'
        && byte_is s 7 b'-'
        && byte_is s 10 b'T'
        && byte_is s 13 b':'
        && byte_is s 16 b':'
        && byte_is s 19 b'Z')
    && all (digit_at s) digit_positions

unfoldable pub find_node : Text → List (Text × Json) → Option Json
find_node id [] = none
find_node id ((j, v) ∷ nodes) = if j == id then some v else find_node id nodes

unfoldable pub put_node : Text → Json → List (Text × Json) → List (Text × Json)
put_node id v [] = (id, v) ∷ []
put_node id v ((j, w) ∷ nodes) = if j == id then (id, v) ∷ nodes else (j, w) ∷ put_node id v nodes

abbrev pub observed : Text
observed = codes "observed_utc"

-- Is the stored time, if it is a text, at least the given one?
abbrev pub is_newer : Fields → Text → Bool
is_newer stored time = is_some_and (text_of observed stored) (λ cur. text_le time cur)

-- One round of `for (k, v) in payload`.
unfoldable pub merge_field : Text → Json → Fields → Fields
merge_field k v stored =
    if k == observed && is_some_and (as_str v) (is_newer stored)
    then stored
    else insert_field k v stored

unfoldable pub merge_fields : Fields → Fields → Fields
unfolding merge_field
merge_fields stored end = stored
merge_fields stored (field k v payload) = merge_fields (merge_field k v stored) payload

-- The time of the envelope, after the loop.
unfoldable pub touch : Option Text → Fields → Fields
touch none stored = stored
touch (some env) stored =
    if is_newer stored env then stored else insert_field observed (str env) stored

-- What `node.upsert` makes of the stored value.
unfoldable pub upsert_value : Fields → Option Text → Json → Json
unfolding merge_fields touch
upsert_value payload env (obj stored) = obj (touch env (merge_fields stored payload))
upsert_value payload env _ = obj payload

unfoldable pub upsert : Fields → Option Text → Materialized → Materialized
unfolding find_node put_node upsert_value
upsert payload env g = elim (text_of (codes "id") payload) [
  | none ↦ g
  | some id ↦
      let stored = unwrap_or (find_node id g.nodes) (obj (field (codes "id") (str id) end)) in
      record g { nodes = put_node id (upsert_value payload env stored) g.nodes }
]

-- The endpoints and the kind that an edge event names.
unfoldable pub edge_key : Fields → Option (Text × Text × EdgeType)
edge_key payload = and_then (text_of (codes "from") payload) λ from.
    and_then (text_of (codes "to") payload)
      λ to. and_then (text_of (codes "type") payload) λ kind. some (from, to, parse_edge_type kind)

-- An empty time stands for a missing one and is let through.
abbrev pub is_usable : Text → Bool
is_usable time = is_empty time || is_canonical_ts time

abbrev pub append_row : Option StoredEdge → List StoredEdge → List StoredEdge
append_row none edges = edges
append_row (some row) edges = edges ++ row ∷ []

abbrev pub matches_key : Text × Text × EdgeType → StoredEdge → Bool
matches_key key row = row.from == key.0 && row.to == key.1 && row.edge == key.2

-- The body of the loop of `edge.retract`.
unfoldable pub retract_row : Text × Text × EdgeType → StoredEdge → StoredEdge
retract_row key row = if matches_key key row then record row { retracted = true } else row

abbrev pub retract_rows : Option (Text × Text × EdgeType) → List StoredEdge → List StoredEdge
retract_rows none edges = edges
retract_rows (some key) edges = map (retract_row key) edges

abbrev pub as_object : Json → Option Fields
as_object (obj fields) = some fields
as_object _ = none

-- The filter at the end: both ends of the interval count.
unfoldable pub is_valid_at : Text → StoredEdge → Bool
is_valid_at cutoff e =
    text_le e.valid_from cutoff
    && (is_none e.valid_until || is_some_and e.valid_until (text_le cutoff))

module _ (to_f32 : Json → Option ℕ) where
  -- The row that `edge.assert` adds, if its times are canonical.
  unfoldable pub asserted_row : Fields → Option Text → Option StoredEdge
  unfolding edge_key
  asserted_row payload env = and_then (edge_key payload) λ key.
      let valid_from = unwrap_or (text_of (codes "valid_from") payload) (unwrap_or env []) in
      let valid_until = text_of (codes "valid_until") payload in
      let seen = unwrap_or (text_of observed payload) (unwrap_or env []) in
      if is_usable valid_from
        && not (is_some_and valid_until (λ u. not (is_canonical_ts u)))
        && is_usable seen
      then some (record {
        from = key.0;
        edge = key.2;
        to = key.1;
        weight = and_then (get_field (codes "weight") payload) to_f32;
        valid_from = valid_from;
        valid_until = valid_until;
        retracted = false;
        observed_utc = seen;
        provenance = text_of (codes "provenance") payload;
      })
      else none

  -- One event with its operation, its payload and the time of its envelope.
  unfoldable pub apply_op : Text → Fields → Option Text → Materialized → Materialized
  unfolding upsert asserted_row retract_row
  apply_op op payload env g =
      if op == codes "node.upsert"
      then upsert payload env g
      else if op == codes "edge.assert"
      then record g { edges = append_row (asserted_row payload env) g.edges }
      else if op == codes "edge.retract"
      then record g { edges = retract_rows (edge_key payload) g.edges }
      else g

  -- The body of the loop over the events.
  unfoldable pub replay_event : Json → Materialized → Materialized
  unfolding apply_op
  replay_event event g = elim (and_then (get (codes "op") event) as_str) [
    | none ↦ g
    | some op ↦ elim (and_then (get (codes "payload") event) as_object) [
      | none ↦ g
      | some payload ↦ apply_op op payload (and_then (get observed event) as_str) g
    ]
  ]

  unfoldable pub replay : List Json → Materialized → Materialized
  unfolding replay_event
  replay [] g = g
  replay (event ∷ events) g = replay events (replay_event event g)

  unfoldable pub materialize : Text → List Json → Option Text → Bool → Materialized
  unfolding replay is_valid_at
  materialize now events as_of include_expired =
      let g = replay events (record { nodes = []; edges = [] }) in
      if include_expired
      then g
      else record g { edges = filter (is_valid_at (unwrap_or as_of now)) g.edges }
