-- ===== src/ContextSelection/Facts/Decides.antt =====
-- context_selection.rs, `select_facts_inner`: what its result says of all combinations.
use innen.Common.{
  ℕ, suc, ◌≤◌, ◌<◌, ◌≡◌, true, Option, none, some, List, [], ◌∷◌, arith, Outcome, ok, err,
  >>=-eq-ok, Option-cases, inl, inr, ◌⊎◌, subst, ok-injective, nat_eq, list_eq, pair_eq, Bool-cases,
  leb, leb→le, ◌∙◌, ap,
}
use innen.Common.Sets.{Set}
use innen.ContextSelection.Graph.{SelectionError, facts_infeasible, Selection, ContextGraph, Fact}
use innen.ContextSelection.Facts.{
  PacketCost, FactSearch, price, visit, close_facts, select_facts_inner,
}
use innen.ContextSelection.Facts.Explored.{Completes, Settled}
use innen.ContextSelection.Facts.Exact.{visit-Explored}
use innen.ContextSelection.Facts.Achieved.{IsAchieved, visit-Keeps}
use innen.ContextSelection.Facts.Limit.{tree_size, IsPriced, visit-Within}

abbrev fresh : FactSearch
fresh = record { states = 0; best = none; visited = [] }

module _ {F : Type 0} (g : ContextGraph F) (packet_cost : Option PacketCost)
    (budget state_limit : ℕ) where
  Settled-fresh :
      (rest : List (List Set)) (index : ℕ)
      → Settled g packet_cost budget state_limit rest index fresh
  Settled-fresh [] index = ((λ u t m c. cc), tt)
  Settled-fresh (a ∷ rest) index = ((λ u t m c. cc), Settled-fresh rest (suc index))

  -- The cheapest of the combinations, and within the budget.
  pub record IsCheapest (closed : List (List Set)) (sel : Selection) : Type 0 where
    pub combination : Completes closed [] sel.selected
    pub priced : price g packet_cost budget state_limit true sel.selected ≡ ok sel.cost
    pub within : sel.cost ≤ budget
    pub cheapest :
        (t : Set) (c : ℕ)
        → Completes closed [] t
        → price g packet_cost budget state_limit true t ≡ ok c
        → sel.cost ≤ c

  -- What the search leaves behind, from a fresh start.
  search-IsCheapest :
      (closed : List (List Set)) (s : FactSearch) (sel : Selection)
      → visit g packet_cost budget state_limit closed 0 [] fresh ≡ ok s
      → s.best ≡ some sel
      → IsCheapest closed sel
  search-IsCheapest closed s sel ran e =
      let explored =
        visit-Explored g packet_cost budget state_limit closed 0 [] fresh s (Settled-fresh closed 0)
          ran in
      let (comp, priced, within) =
        subst (IsAchieved g packet_cost budget state_limit (λ t. Completes closed [] t)) e (
          visit-Keeps g packet_cost budget state_limit (λ t. Completes closed [] t) closed 0 []
            fresh s (λ t c. c) tt ran) in
      record {
        combination = comp;
        priced = priced;
        within = within;
        cheapest = λ t c comp' priced'. elim (Bool-cases (leb c budget)) [
          | inl small ↦
              let (b, found, le) = explored.found t comp' c priced' (leb→le c budget small) in
              ground arith
          | inr large ↦ ground arith
        ];
      }

  search_infeasible :
      (closed : List (List Set)) (s : FactSearch)
      → visit g packet_cost budget state_limit closed 0 [] fresh ≡ ok s
      → s.best ≡ none
      → (t : Set) (c : ℕ) → Completes closed [] t
      → price g packet_cost budget state_limit true t ≡ ok c
      → budget < c
  search_infeasible closed s ran e t c comp priced =
      let explored =
        visit-Explored g packet_cost budget state_limit closed 0 [] fresh s (Settled-fresh closed 0)
          ran in
      elim (Bool-cases (leb c budget)) [
        | inl small ↦
            let (b, found, le) = explored.found t comp c priced (leb→le c budget small) in
            absurd (cc)
        | inr large ↦ ground arith
      ]

-- A selection that `select_facts` or `select_facts_by` returns is one combination of the closed
-- alternatives, at its own price, within the budget, and no combination with a price is cheaper. This
-- holds whatever the caller's cost function is, and whatever the limit is.
pub select_facts_exact :
    {F : Type 0} (g : ContextGraph F) (packet_cost : Option PacketCost) (budget state_limit : ℕ)
    (facts : List Fact) (sel : Selection)
    → select_facts_inner g budget facts state_limit packet_cost ≡ ok sel
    → (closed : List (List Set)) × (close_facts g [] facts ≡ ok closed)
      × IsCheapest g packet_cost budget state_limit closed sel
unfolding select_facts_inner
select_facts_exact g packet_cost budget state_limit facts sel h =
    let (closed, closing, r) = >>=-eq-ok (close_facts g [] facts) _ h in
    let (s, ran, last) = >>=-eq-ok (visit g packet_cost budget state_limit closed 0 [] fresh) _ r in
    elim (Option-cases s.best) [
      | inl nothing ↦
          let bad : ◌≡◌ {A = Outcome SelectionError Selection} (err (facts_infeasible budget))
              (ok sel) =
            rw nothing at last in
          absurd (cc)
      | inr (b, e) ↦ (
        closed,
        closing,
        subst (IsCheapest g packet_cost budget state_limit closed) (ok-injective (rw e at last))
            (search-IsCheapest g packet_cost budget state_limit closed s b ran e),
      )
    ]

abbrev result : ℕ → Option Selection → Outcome SelectionError Selection
result budget none = err (facts_infeasible budget)
result budget (some sel) = ok sel

select-of-search :
    {F : Type 0} (g : ContextGraph F) (packet_cost : Option PacketCost) (budget state_limit : ℕ)
    (facts : List Fact) (closed : List (List Set)) (s : FactSearch)
    → close_facts g [] facts ≡ ok closed
    → visit g packet_cost budget state_limit closed 0 [] fresh ≡ ok s
    → select_facts_inner g budget facts state_limit packet_cost ≡ result budget s.best
unfolding select_facts_inner
select-of-search g packet_cost budget state_limit facts closed s closing ran = ground arith

-- Where the cost fails of no set that one closed alternative for each of the first few facts makes, and
-- the limit is at least the size of the tree of choices, the search decides the question, with the
-- caller's cost as with the sum of the graph's costs: it returns a cheapest combination, or it reports that none fits, and then none does.
pub select_facts_decides :
    {F : Type 0} (g : ContextGraph F) (packet_cost : Option PacketCost) (budget state_limit : ℕ)
    (facts : List Fact) (closed : List (List Set))
    → close_facts g [] facts ≡ ok closed
    → IsPriced g packet_cost budget state_limit closed []
    → tree_size closed ≤ state_limit
    → ((sel : Selection) × (select_facts_inner g budget facts state_limit packet_cost ≡ ok sel)
        × IsCheapest g packet_cost budget state_limit closed sel)
      ⊎ ((select_facts_inner g budget facts state_limit packet_cost ≡ err (facts_infeasible budget))
          × ((t : Set) (c : ℕ)
              → Completes closed [] t
              → price g packet_cost budget state_limit true t ≡ ok c
              → budget < c))
select_facts_decides g packet_cost budget state_limit facts closed closing priced room =
    let (s, ran, _) =
      visit-Within g packet_cost budget state_limit closed 0 [] fresh priced (omega arith) in
    elim (Option-cases s.best) [
      | inl nothing ↦ inr (
        select-of-search g packet_cost budget state_limit facts closed s closing ran
            ∙ ap (result budget) nothing,
        search_infeasible g packet_cost budget state_limit closed s ran nothing,
      )
      | inr (sel, e) ↦ inl (
        sel,
        select-of-search g packet_cost budget state_limit facts closed s closing ran
            ∙ ap (result budget) e,
        search-IsCheapest g packet_cost budget state_limit closed s sel ran e,
      )
    ]
