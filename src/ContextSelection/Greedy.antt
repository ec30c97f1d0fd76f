-- ===== src/ContextSelection/Greedy.antt =====
-- context_selection.rs, `ContextGraph::select`: the closure of the seeds, then rounds that add the
-- closure of the best relevance for its cost, while one fits the budget.
pub mod Sound
pub mod Total
use innen.Common.{
  ℕ, zero, suc, ◌+◌, ◌-◌, Bool, true, false, Option, none, some, List, [], ◌∷◌, ltb, if◌then◌else◌,
  is_empty, length, Outcome, ok, err, panic, ◌>>=◌, ◌>>◌, reject_if,
}
use innen.Common.Sets.{Set, extend, difference}
use innen.Common.Maps.{lookup, keys}
use innen.ContextSelection.Graph.{
  Float, SelectionError, budget_insufficient, Selection, ContextGraph, closure, cost,
}

-- The best round so far: its density, its cost and the ids that it adds.
abbrev pub Best : Type 0 → Type 0
Best F = Option (F × ℕ × Set)

module _ (float : Float) (g : ContextGraph float.F) where
  open float use {F, zero_float, float_lt, float_le, sum_floats, float_div, of_u64}

  -- `self.nodes[id].relevance` over the ids.
  unfoldable pub relevances : List ℕ → Outcome SelectionError (List F)
  relevances [] = ok []
  relevances (id ∷ ids) = elim (lookup id g.nodes) [
    | none ↦ panic
    | some node ↦ relevances ids >>= λ rest. ok (node.relevance ∷ rest)
  ]

  abbrev pub beats : Best F → F → Bool
  beats none density = true
  beats (some (previous, _, _)) density = float_lt previous density

  -- The end of the body of the `for` loop: `extra` fits, and replaces the best if it is denser.
  unfoldable pub weigh : Best F → Set → ℕ → List F → Best F
  weigh best extra extra_cost gains =
      let gain = sum_floats gains in
      let density = float_div gain (of_u64 extra_cost) in
      if float_le gain zero_float
      then best
      else (if beats best density then some (density, extra_cost, extra) else best)

  -- The body of the `for` loop, for ids that are not selected yet: `room` is `budget - cost`.
  unfoldable pub consider_extra : ℕ → Best F → Set → Outcome SelectionError (Best F)
  unfolding relevances weigh
  consider_extra room best extra = cost g extra >>= λ extra_cost.
      if ltb room extra_cost
      then ok best
      else (relevances extra >>= λ gains. ok (weigh best extra extra_cost gains))

  unfoldable pub consider : Set → ℕ → Best F → Set → Outcome SelectionError (Best F)
  unfolding consider_extra
  consider selected room best closed =
      let extra = difference closed selected in
      if is_empty extra then ok best else consider_extra room best extra

  -- The `for` loop over the closures.
  unfoldable pub best_extra : Set → ℕ → Best F → List Set → Outcome SelectionError (Best F)
  best_extra selected room best [] = ok best
  best_extra selected room best (closed ∷ closures) =
      consider selected room best closed >>= λ next. best_extra selected room next closures

  -- The `loop`. A round adds an id that was not selected, so a round for each node is enough fuel;
  -- `panic` marks the end of the fuel.
  unfoldable pub greedy : ℕ → ℕ → List Set → Set → ℕ → Outcome SelectionError (Set × ℕ)
  greedy zero budget closures selected spent = panic
  greedy (suc fuel) budget closures selected spent =
      best_extra selected (budget - spent) none closures >>= elim [
        | none ↦ ok (selected, spent)
        | some (_, extra_cost, extra) ↦
            greedy fuel budget closures (extend selected extra) (spent + extra_cost)
      ]

  -- The closure of each node by itself.
  unfoldable pub closures_of : List ℕ → Outcome SelectionError (List Set)
  closures_of [] = ok []
  closures_of (id ∷ ids) =
      closure g (id ∷ []) >>= λ closed. closures_of ids >>= λ rest. ok (closed ∷ rest)

  unfoldable pub select : ℕ → Set → Outcome SelectionError Selection
  select budget seeds = do
    selected ← closure g seeds
    spent ← cost g selected
    reject_if (ltb budget spent) (budget_insufficient spent budget)
    closures ← closures_of (keys g.nodes)
    last ← greedy (suc (length (keys g.nodes))) budget closures selected spent
    ok (record { selected = last.0; cost = last.1; budget = budget })
