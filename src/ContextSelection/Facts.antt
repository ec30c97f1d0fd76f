-- ===== src/ContextSelection/Facts.antt =====
-- context_selection.rs, `select_facts`, `select_facts_by` and `FactSearch`: a depth-first search over
-- one alternative for each fact, with a memo of the visited states and a limit on their number.
pub mod Explored
pub mod Exact
pub mod Limit
pub mod Achieved
pub mod Decides
use innen.Common.{
  ℕ, zero, suc, ◌+◌, Bool, true, false, ◌||◌, ◌&&◌, Option, none, some, List, [], ◌∷◌, ltb, leb,
  if◌then◌else◌, is_some_and, is_none, is_empty, any, contains, nat_eq, list_eq, pair_eq, Outcome,
  ok, err, ◌>>=◌, ◌>>◌, reject_if,
}
use innen.Common.Text.{Text, codes}
use innen.Common.Sets.{Set, union}
use innen.ContextSelection.Graph.{
  Fact, SelectionError, invalid, facts_infeasible, search_limit, Selection, ContextGraph, closure,
  cost,
}

-- `PacketCost`, the caller's cost of a set of ids.
abbrev pub PacketCost : Type 0
PacketCost = Set → Outcome SelectionError ℕ

-- The fields of `FactSearch` that change; `visited` is a set of pairs, newest first.
pub record FactSearch : Type 0 where
  pub states : ℕ
  pub best : Option Selection
  pub visited : List (ℕ × Set)

-- The `for` loop over the alternatives of a fact, with the recursive call as `visit`.
unfoldable pub each :
    (Set → FactSearch → Outcome SelectionError FactSearch)
    → Set
    → List Set
    → FactSearch
    → Outcome SelectionError FactSearch
each visit selected [] s = ok s
each visit selected (alternative ∷ alternatives) s =
    visit (union selected alternative) s >>= λ next. each visit selected alternatives next

module _ {F : Type 0} (g : ContextGraph F) (packet_cost : Option PacketCost)
    (budget state_limit : ℕ) where
  unfoldable pub price : Bool → Set → Outcome SelectionError ℕ
  price leaf selected = elim packet_cost [
    | none ↦ cost g selected
    | some f ↦ if leaf then f selected else ok 0
  ]

  -- Over the budget, or no cheaper than the best so far.
  abbrev pub is_hopeless : FactSearch → ℕ → Bool
  is_hopeless s c = ltb budget c || is_some_and s.best (λ b. leb b.cost c)

  -- The start of `visit`: the state is recorded, and counted against the limit.
  unfoldable pub enter : ℕ → Set → FactSearch → Outcome SelectionError FactSearch
  enter index selected s = do
    reject_if (leb state_limit s.states) (search_limit state_limit)
    ok (record s { states = s.states + 1; visited = (index, selected) ∷ s.visited })

  -- The leaf of `visit`, where a cheaper selection becomes the best.
  unfoldable pub settle : Set → FactSearch → ℕ → FactSearch
  settle selected s c =
      if is_hopeless s c
      then s
      else record s { best = some (record { selected = selected; cost = c; budget = budget }) }

  -- The first argument is `alternatives[index..]`.
  unfoldable pub visit : List (List Set) → ℕ → Set → FactSearch → Outcome SelectionError FactSearch
  unfolding price enter settle each
  visit [] index selected s =
      if contains s.visited (index, selected)
      then ok s
      else enter index selected s >>= λ s'. price true selected >>= λ c. ok (settle selected s' c)
  visit (alternatives ∷ rest) index selected s =
      let children = each (visit rest (suc index)) selected alternatives in
      if contains s.visited (index, selected)
      then ok s
      else enter index selected s >>= λ s'. price false selected >>= λ c.
          if is_none packet_cost && is_hopeless s' c then ok s' else children s'

module _ {F : Type 0} (g : ContextGraph F) where
  -- `fact.alternatives.iter().map(|a| self.closure(a)).collect()`
  unfoldable pub close_all : List Set → Outcome SelectionError (List Set)
  close_all [] = ok []
  close_all (a ∷ rest) = closure g a >>= λ t. close_all rest >>= λ ts. ok (t ∷ ts)

  -- The loop over the facts; `ids` holds the fact ids that went before.
  unfoldable pub close_facts : List Text → List Fact → Outcome SelectionError (List (List Set))
  unfolding close_all
  close_facts ids [] = ok []
  close_facts ids (fact ∷ facts) = do
    reject_if
        (is_empty fact.id
          || contains ids fact.id
          || is_empty fact.alternatives
          || any is_empty fact.alternatives)
        (invalid (codes "facts require unique IDs and nonempty evidence alternatives"))
    closed ← close_all fact.alternatives
    rest ← close_facts (fact.id ∷ ids) facts
    ok (closed ∷ rest)

  unfoldable pub select_facts_inner :
      ℕ → List Fact → ℕ → Option PacketCost → Outcome SelectionError Selection
  unfolding close_facts visit
  select_facts_inner budget facts state_limit packet_cost = do
    closed ← close_facts [] facts
    s ←
        visit g packet_cost budget state_limit closed 0 []
          (record { states = 0; best = none; visited = [] })
    elim s.best [ none ↦ err (facts_infeasible budget) | some sel ↦ ok sel ]

  unfoldable pub select_facts : ℕ → List Fact → ℕ → Outcome SelectionError Selection
  unfolding select_facts_inner
  select_facts budget facts state_limit = select_facts_inner budget facts state_limit none

  unfoldable pub select_facts_by : ℕ → List Fact → ℕ → PacketCost → Outcome SelectionError Selection
  unfolding select_facts_inner
  select_facts_by budget facts state_limit packet_cost =
      select_facts_inner budget facts state_limit (some packet_cost)
