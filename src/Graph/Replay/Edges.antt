-- ===== src/Graph/Replay/Edges.antt =====
-- graph/materialize.rs: the edges of a replay, against a description that looks at each event once.
use innen.Common.{
  ℕ, ◌≡◌, refl, sym, ◌∙◌, ap, Bool, true, false, Option, none, some, List, [], ◌∷◌, ◌++◌, map,
  arith, if◌then◌else◌, unwrap_or, any, filter, Option-cases, inl, inr, ◌==◌, nat_eq, list_eq,
}
use mathlib.Core.Path.{ap₂, fun_ext}
use mathlib.Core.List.{append-nil, append_assoc, map-append}
use innen.Common.Text.{Text, codes}
use innen.Common.Json.{Json, Fields, get, as_str, and_then}
use innen.Graph.Vocabulary.{EdgeType, edge_eq}
use innen.Graph.Replay.{
  StoredEdge, Materialized, observed, edge_key, asserted_row, retract_row, matches_key, apply_op,
  as_object, replay_event, replay, is_valid_at, materialize,
}

-- What an event means for the edges.
pub data Effect : Type 0 where
  nothing : Effect
  adds : StoredEdge → Effect
  retracts : Text × Text × EdgeType → Effect

-- Does the effect retract the row?
abbrev pub hits : StoredEdge → Effect → Bool
hits row (retracts key) = matches_key key row
hits row _ = false

-- A row as the later effects leave it.
pub after : List Effect → StoredEdge → StoredEdge
after effects row = if any (hits row) effects then record row { retracted = true } else row

-- The rows that the effects add, each as those behind it leave it.
pub history : List Effect → List StoredEdge
history [] = []
history (adds row ∷ effects) = after effects row ∷ history effects
history (_ ∷ effects) = history effects

abbrev act : Effect → List StoredEdge → List StoredEdge
act nothing edges = edges
act (adds row) edges = edges ++ row ∷ []
act (retracts key) edges = map (retract_row key) edges

after-nothing :
    (effects : List Effect) (row : StoredEdge) → after effects row ≡ after (nothing ∷ effects) row
unfolding after
after-nothing effects row = refl

after-adds :
    (new : StoredEdge) (effects : List Effect) (row : StoredEdge)
    → after (adds new ∷ effects) row ≡ after effects row
unfolding after
after-adds new effects row = refl

after-nil : (row : StoredEdge) → after [] row ≡ row
unfolding after
after-nil row = refl

-- The key of a row does not depend on its flag.
hits-retracted :
    (effects : List Effect) (row : StoredEdge)
    → any (hits (record row { retracted = true })) effects ≡ any (hits row) effects
hits-retracted [] row = refl
hits-retracted (nothing ∷ effects) row = hits-retracted effects row
hits-retracted (adds new ∷ effects) row = hits-retracted effects row
hits-retracted (retracts key ∷ effects) row = ground (arith, hits-retracted effects row)

after-retract :
    (key : Text × Text × EdgeType) (effects : List Effect) (row : StoredEdge)
    → after effects (retract_row key row) ≡ after (retracts key ∷ effects) row
unfolding after retract_row
after-retract key effects row = ground (arith, hits-retracted effects row)

map-after-retract :
    (key : Text × Text × EdgeType) (effects : List Effect) (edges : List StoredEdge)
    → map (after effects) (map (retract_row key) edges) ≡ map (after (retracts key ∷ effects)) edges
map-after-retract key effects [] = refl
map-after-retract key effects (row ∷ edges) =
    ap₂ ◌∷◌ (after-retract key effects row) (map-after-retract key effects edges)

map-after-nil : (edges : List StoredEdge) → map (after []) edges ≡ edges
map-after-nil [] = refl
map-after-nil (row ∷ edges) = ap₂ ◌∷◌ (after-nil row) (map-after-nil edges)

module _ (to_f32 : Json → Option ℕ) where
  abbrev adds_row : Option StoredEdge → Effect
  adds_row none = nothing
  adds_row (some row) = adds row

  abbrev retracts_key : Option (Text × Text × EdgeType) → Effect
  retracts_key none = nothing
  retracts_key (some key) = retracts key

  op_effect : Text → Fields → Option Text → Effect
  op_effect op payload env =
      if op == codes "node.upsert"
      then nothing
      else if op == codes "edge.assert"
      then adds_row (asserted_row to_f32 payload env)
      else if op == codes "edge.retract"
      then retracts_key (edge_key payload)
      else nothing

  pub effect : Json → Effect
  unfolding op_effect
  effect event = elim (and_then (get (codes "op") event) as_str) [
    | none ↦ nothing
    | some op ↦ elim (and_then (get (codes "payload") event) as_object) [
      | none ↦ nothing
      | some payload ↦ op_effect op payload (and_then (get observed event) as_str)
    ]
  ]

  apply_op-edges :
      (op : Text) (payload : Fields) (env : Option Text) (g : Materialized)
      → (apply_op to_f32 op payload env g).edges ≡ act (op_effect op payload env) g.edges
  unfolding op_effect apply_op
  apply_op-edges op payload env g = ground arith

  replay_event-edges :
      (event : Json) (g : Materialized)
      → (replay_event to_f32 event g).edges ≡ act (effect event) g.edges
  unfolding effect replay_event
  replay_event-edges event g = elim (Option-cases (and_then (get (codes "op") event) as_str)) [
    | inl no_op ↦ ground arith
    | inr (op, has_op) ↦ elim (Option-cases (and_then (get (codes "payload") event) as_object)) [
      | inl no_payload ↦ ground arith
      | inr (payload, has_payload) ↦
          ground (arith, apply_op-edges op payload (and_then (get observed event) as_str) g)
    ]
  ]

  replay-edges-step :
      (effect : Effect) (effects : List Effect) (edges : List StoredEdge)
      → map (after effects) (act effect edges) ++ history effects
        ≡ map (after (effect ∷ effects)) edges ++ history (effect ∷ effects)
  unfolding history
  replay-edges-step nothing effects edges = rw (fun_ext (after-nothing effects))
  replay-edges-step (adds row) effects edges = rw (fun_ext (after-adds row effects)) (
      ap (λ l. l ++ history effects) (map-append (after effects) edges (row ∷ []))
      ∙ append_assoc (map (after effects) edges) (after effects row ∷ []) (history effects))
  replay-edges-step (retracts key) effects edges =
      ap (λ l. l ++ history effects) (map-after-retract key effects edges)

  replay-edges :
      (events : List Json) (g : Materialized)
      → (replay to_f32 events g).edges
        ≡ map (after (map effect events)) g.edges ++ history (map effect events)
  unfolding replay history
  replay-edges [] g = sym (append-nil _ ∙ map-after-nil g.edges)
  replay-edges (event ∷ events) g =
      replay-edges events (replay_event to_f32 event g)
      ∙ ap (λ l. map (after (map effect events)) l ++ history (map effect events))
          (replay_event-edges event g)
      ∙ replay-edges-step (effect event) (map effect events) g.edges

replay-append :
    (to_f32 : Json → Option ℕ) (events more : List Json) (g : Materialized)
    → replay to_f32 (events ++ more) g ≡ replay to_f32 more (replay to_f32 events g)
unfolding replay
replay-append to_f32 [] more g = refl
replay-append to_f32 (event ∷ events) more g =
    replay-append to_f32 events more (replay_event to_f32 event g)

-- The edges of a replay are the asserted rows in order, each retracted exactly if a later event
-- retracts its key, and no row is ever dropped; with the validity filter, those of them that are valid
-- at the cutoff.
pub materialize-edges :
    (to_f32 : Json → Option ℕ) (now : Text) (events : List Json) (as_of : Option Text)
    → ((materialize to_f32 now events as_of true).edges ≡ history (map (effect to_f32) events))
      × ((materialize to_f32 now events as_of false).edges
          ≡ filter (is_valid_at (unwrap_or as_of now)) (history (map (effect to_f32) events)))
unfolding materialize
materialize-edges to_f32 now events as_of =
    let whole = replay-edges to_f32 events (record { nodes = []; edges = [] }) in
    (whole, ap (filter (is_valid_at (unwrap_or as_of now))) whole)

-- A longer journal keeps every row of the shorter one, in its place, retracted if the new events
-- retract it, and puts its own rows behind them.
pub materialize-append :
    (to_f32 : Json → Option ℕ) (now : Text) (events more : List Json) (as_of : Option Text)
    → (materialize to_f32 now (events ++ more) as_of true).edges
      ≡ map (after (map (effect to_f32) more)) (materialize to_f32 now events as_of true).edges
        ++ history (map (effect to_f32) more)
unfolding materialize
materialize-append to_f32 now events more as_of =
    let empty : Materialized = record { nodes = []; edges = [] } in
    ap (λ (g : Materialized). g.edges) (replay-append to_f32 events more empty)
    ∙ replay-edges to_f32 more (replay to_f32 events empty)
