-- ===== src/ContextSelection/Graph.antt =====
-- context_selection.rs: the graph, its constructor, `closure` and `cost`. Sets are `BTreeSet<u64>`
-- and maps are `BTreeMap<u64, _>`. A float is of the parameter type `F`.
use innen.Common.{
  ℕ, zero, suc, ◌+◌, ◌^◌, Bool, not, ◌||◌, Option, none, some, List, [], ◌∷◌, map, reverse, ltb,
  eqb, if◌then◌else◌, is_some, unwrap_or, any, length, contains, nat_eq, Outcome, ok, err, panic,
  ◌>>=◌, ◌>>◌, reject_if,
}
use innen.Common.Text.{Text, codes}
use innen.Common.Sets.{Set, insert}
use innen.Common.Maps.{lookup, put, keys, values}

-- `f64`, with the operations that the module calls.
pub record Float : Type 1 where
  pub F : Type 0
  pub zero_float : F
  pub is_finite : F → Bool
  pub float_lt : F → F → Bool
  pub float_le : F → F → Bool
  pub sum_floats : List F → F
  pub float_div : F → F → F
  pub of_u64 : ℕ → F

pub record Node (F : Type 0) : Type 0 where
  pub id : ℕ
  pub cost : ℕ
  pub relevance : F

pub data Relation : Type 0 where
  requires related : Relation

pub record Edge : Type 0 where
  pub from : ℕ
  pub to : ℕ
  pub relation : Relation

pub record Fact : Type 0 where
  pub id : Text
  pub alternatives : List Set

pub data SelectionError : Type 0 where
  invalid : Text → SelectionError
  budget_insufficient : (required budget : ℕ) → SelectionError
  facts_infeasible : (budget : ℕ) → SelectionError
  search_limit : (limit : ℕ) → SelectionError

pub record Selection : Type 0 where
  pub selected : Set
  pub cost : ℕ
  pub budget : ℕ

pub record ContextGraph (F : Type 0) : Type 0 where
  pub nodes : List (ℕ × Node F)
  pub required : List (ℕ × Set)

abbrev pub u64_mod : ℕ
u64_mod = 2 ^ 64

-- `self.requires.get(&id)`, with no entry read as the empty set.
unfoldable pub neighbors : {F : Type 0} → ContextGraph F → ℕ → Set
neighbors g id = unwrap_or (lookup id g.required) []

abbrev pub knows : {F : Type 0} → ContextGraph F → ℕ → Bool
knows g id = contains (keys g.nodes) id

module _ {F : Type 0} where
  -- `graph.requires.entry(from).or_default().insert(to)`
  unfoldable pub add_requirement : ContextGraph F → ℕ → ℕ → ContextGraph F
  unfolding neighbors
  add_requirement g from to = record g {
    required = put from (insert to (neighbors g from)) g.required;
  }

  unfoldable pub add_edge : ContextGraph F → Edge → ContextGraph F
  unfolding add_requirement
  add_edge g edge = elim edge.relation [
    | requires ↦ add_requirement g edge.from edge.to
    | related ↦ g
  ]

  -- The loop over `edges` in `new`.
  unfoldable pub insert_edges : ContextGraph F → List Edge → Outcome SelectionError (ContextGraph F)
  unfolding add_edge
  insert_edges g [] = ok g
  insert_edges g (edge ∷ edges) = do
    reject_if (not (knows g edge.from) || not (knows g edge.to)) (invalid (codes "dangling edge"))
    insert_edges (add_edge g edge) edges

module _ (float : Float) where
  open float use {F, zero_float, is_finite, float_lt, sum_floats}

  -- The loop over `nodes` in `new`.
  unfoldable pub insert_nodes :
      List (ℕ × Node F) → List (Node F) → Outcome SelectionError (List (ℕ × Node F))
  insert_nodes m [] = ok m
  insert_nodes m (node ∷ nodes) = do
    reject_if
        (eqb node.cost 0 || not (is_finite node.relevance) || float_lt node.relevance zero_float)
        (invalid (codes "cost must be positive and relevance finite/nonnegative"))
    reject_if (is_some (lookup node.id m)) (invalid (codes "duplicate node"))
    insert_nodes (put node.id node m) nodes

  unfoldable pub new : List (Node F) → List Edge → Outcome SelectionError (ContextGraph F)
  unfolding insert_nodes insert_edges
  new nodes edges = do
    m ← insert_nodes [] nodes
    reject_if (not (is_finite (sum_floats (map (λ n. n.relevance) (values m)))))
        (invalid (codes "total relevance overflow"))
    insert_edges (record { nodes = m; required = [] }) edges

module _ {F : Type 0} (g : ContextGraph F) where
  -- The `for` loop of `closure`: a neighbor that is new to `result` is pushed on `pending`.
  unfoldable pub push_new : List ℕ → Set → List ℕ → Set × List ℕ
  push_new [] result pending = (result, pending)
  push_new (n ∷ ns) result pending =
      push_new ns (if contains result n then result else insert n result)
        (if contains result n then pending else n ∷ pending)

  -- The `while` loop of `closure`. The head of `pending` is the top of the stack. `none`: no fuel.
  unfoldable pub drain : ℕ → Set → List ℕ → Option Set
  unfolding push_new neighbors
  drain fuel result [] = some result
  drain zero result (id ∷ pending) = none
  drain (suc fuel) result (id ∷ pending) =
      let next = push_new (neighbors g id) result pending in drain fuel next.0 next.1

  -- Fuel that runs out shows as `panic`.
  unfoldable pub closure : Set → Outcome SelectionError Set
  unfolding drain
  closure seeds = do
    reject_if (any (λ s. not (knows g s)) seeds) (invalid (codes "unknown seed"))
    elim (drain (length (keys g.nodes) + length seeds) seeds (reverse seeds)) [
      | none ↦ panic
      | some result ↦ ok result
    ]

  -- The fold of `cost`, from `total`. `self.nodes[id]` panics on an id that is not there.
  unfoldable pub cost_from : ℕ → List ℕ → Outcome SelectionError ℕ
  cost_from total [] = ok total
  cost_from total (id ∷ ids) = elim (lookup id g.nodes) [
    | none ↦ panic
    | some node ↦
        if ltb (total + node.cost) u64_mod
        then cost_from (total + node.cost) ids
        else err (invalid (codes "cost overflow"))
  ]

  unfoldable pub cost : Set → Outcome SelectionError ℕ
  unfolding cost_from
  cost ids = cost_from 0 ids
