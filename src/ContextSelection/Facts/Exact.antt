-- ===== src/ContextSelection/Facts/Exact.antt =====
-- context_selection.rs, `FactSearch::visit`: the search is exact. The memo and the pruning lose no
-- cheaper combination.
use innen.Common.{
  ℕ, suc, ◌+◌, ◌≤◌, ◌≡◌, true, false, ◌&&◌, Option, none, some, List, [], ◌∷◌, arith, if◌then◌else◌,
  is_none, contains, nat_eq, list_eq, pair_eq, ok, >>=-eq-ok, Bool-cases, Option-cases, inl, inr,
  subst, ok-injective, sym, ◌∙◌, ap,
}
use innen.Common.Sets.{Set}
use innen.ContextSelection.Graph.{Selection, ContextGraph}
use innen.ContextSelection.Weight.{cost-eq-ok}
use innen.ContextSelection.Facts.{
  PacketCost, FactSearch, each, price, is_hopeless, enter, settle, visit,
}
use innen.ContextSelection.Facts.Explored.{
  Completes, done, pick, Dominates, Improves, Improves-refl, Settled, Settled-enter, Settled-head,
  Explores, Explored, Tries, each-Tries, close_visit, weight-Completes,
}

module _ {F : Type 0} (g : ContextGraph F) (packet_cost : Option PacketCost)
    (budget state_limit : ℕ) where
  abbrev pub entered : ℕ → Set → FactSearch → FactSearch
  entered index selected s = record s {
    states = s.states + 1;
    visited = (index, selected) ∷ s.visited;
  }

  enter-eq-ok :
      (index : ℕ) (selected : Set) (s s' : FactSearch)
      → enter g packet_cost budget state_limit index selected s ≡ ok s'
      → entered index selected s ≡ s'
  unfolding enter
  enter-eq-ok index selected s s' h = ground arith

  hopeless-beaten :
      (s : FactSearch) (c : ℕ)
      → is_hopeless g packet_cost budget state_limit s c ≡ true
      → c ≤ budget
      → (b : Selection) × (s.best ≡ some b) × (b.cost ≤ c)
  hopeless-beaten s c h fits = elim (Option-cases s.best) [
    | inl nothing ↦ absurd (ground arith)
    | inr (b, e) ↦ (b, e, ground arith)
  ]

  settle-Improves :
      (selected : Set) (s : FactSearch) (c : ℕ)
      → Improves g packet_cost budget state_limit s.best
          (settle g packet_cost budget state_limit selected s c).best
  unfolding settle
  settle-Improves selected s c b e =
      elim (Bool-cases (is_hopeless g packet_cost budget state_limit s c)) [
        | inl bad ↦ (b, ground arith, omega arith)
        | inr good ↦
            (record { selected = selected; cost = c; budget = budget }, ground arith, ground arith)
      ]

  settle-Dominates :
      (selected : Set) (s : FactSearch) (c : ℕ)
      → c ≤ budget
      → (b : Selection) × ((settle g packet_cost budget state_limit selected s c).best ≡ some b)
        × (b.cost ≤ c)
  unfolding settle
  settle-Dominates selected s c fits =
      elim (Bool-cases (is_hopeless g packet_cost budget state_limit s c)) [
        | inl bad ↦ let (b, e, le) = hopeless-beaten s c bad fits in (b, ground arith, le)
        | inr good ↦
            (record { selected = selected; cost = c; budget = budget }, ground arith, omega arith)
      ]

  settle-visited :
      (selected : Set) (s : FactSearch) (c : ℕ)
      → (settle g packet_cost budget state_limit selected s c).visited ≡ s.visited
  unfolding settle
  settle-visited selected s c = ground arith

  -- A partial set that is hopeless by the sum of its costs has hopeless completions only.
  pruned_dominated :
      (rest : List (List Set)) (selected : Set) (s : FactSearch) (c : ℕ)
      → packet_cost ≡ none
      → price g packet_cost budget state_limit false selected ≡ ok c
      → is_hopeless g packet_cost budget state_limit s c ≡ true
      → (t : Set) → Completes rest selected t
      → Dominates g packet_cost budget state_limit s.best t
  unfolding price
  pruned_dominated rest selected s c plain priced bad t comp d e fits =
      let (low, _) = cost-eq-ok g c selected (ground arith) in
      let (high, _) = cost-eq-ok g d t (ground arith) in
      let (b, found, le) = hopeless-beaten s c bad (omega (arith, weight-Completes g comp)) in
      (b, found, omega (arith, weight-Completes g comp))

  visited_again :
      (rest : List (List Set)) (index : ℕ) (selected : Set) (s : FactSearch)
      → Settled g packet_cost budget state_limit rest index s
      → contains s.visited (index, selected) ≡ true
      → Explores g packet_cost budget state_limit rest index selected s s
  visited_again rest index selected s settled memo = record {
    improves = Improves-refl g packet_cost budget state_limit s.best;
    frame = λ j u lt m. m;
    found =
        λ t c. Settled-head g packet_cost budget state_limit rest index s settled selected t memo c;
    settled = settled;
  }

  leaf-Explores :
      (index : ℕ) (selected : Set) (s : FactSearch) (c : ℕ)
      → Settled g packet_cost budget state_limit [] index s
      → price g packet_cost budget state_limit true selected ≡ ok c
      → Explores g packet_cost budget state_limit [] index selected s
          (settle g packet_cost budget state_limit selected (entered index selected s) c)
  leaf-Explores index selected s c settled priced =
      let s1 = entered index selected s in
      let s' = settle g packet_cost budget state_limit selected s1 c in
      close_visit g packet_cost budget state_limit [] index selected s s' settled
        (settle-Improves selected s1 c) (λ j u lt m. rw (settle-visited selected s1 c) at m)
        (λ t comp. leaf_found t comp) (λ at_depth. (at_depth, tt))
    where
      leaf_found :
          (t : Set)
          → Completes [] selected t
          → Dominates g packet_cost budget state_limit
              (settle g packet_cost budget state_limit selected (entered index selected s) c).best
              t
      leaf_found t done d e fits =
          let same : c ≡ d = ok-injective (sym priced ∙ e) in
          let (b, found, le) =
            settle-Dominates selected (entered index selected s) c (omega arith) in
          (b, found, omega arith)

  node_found :
      (rest : List (List Set)) (index : ℕ) (alternatives : List Set) (selected : Set)
      (s s' : FactSearch)
      → Tries g packet_cost budget state_limit alternatives rest (suc index) selected s s'
      → (t : Set) → Completes (alternatives ∷ rest) selected t
      → Dominates g packet_cost budget state_limit s'.best t
  node_found rest index alternatives selected s s' tries t (pick {a = a} m later) =
      tries.found a t m later

  -- An inner node: pruned, or the loop over its alternatives.
  node-Explores :
      (rest : List (List Set)) (index : ℕ)
      → Explored g packet_cost budget state_limit rest
          (suc index)
          (visit g packet_cost budget state_limit rest (suc index))
      → (alternatives : List Set) (selected : Set) (s s' : FactSearch) (c : ℕ)
      → Settled g packet_cost budget state_limit (alternatives ∷ rest) index s
      → price g packet_cost budget state_limit false selected ≡ ok c
      → (if is_none packet_cost
            && is_hopeless g packet_cost budget state_limit (entered index selected s) c
          then ok (entered index selected s)
          else each
              (visit g packet_cost budget state_limit rest (suc index))
              selected
              alternatives
              (entered index selected s))
        ≡ ok s'
      → Explores g packet_cost budget state_limit (alternatives ∷ rest) index selected s s'
  node-Explores rest index spec alternatives selected s s' c settled priced h =
      let s1 = entered index selected s in
      let deeper =
        Settled-enter g packet_cost budget state_limit rest (suc index) index selected
          (s.states + 1) s (omega arith) settled.1 in
      elim (Bool-cases (is_none packet_cost && is_hopeless g packet_cost budget state_limit s1 c)) [
        | inl cut ↦
            subst (Explores g packet_cost budget state_limit (alternatives ∷ rest) index selected s)
              (ok-injective (rw cut at h))
              (close_visit g packet_cost budget state_limit (alternatives ∷ rest) index selected s
                s1 settled (Improves-refl g packet_cost budget state_limit s.best) (λ j u lt m. m)
                (pruned_dominated (alternatives ∷ rest) selected s1 c (ground arith) priced
                  (ground arith))
                (λ at_depth. (at_depth, deeper)))
        | inr open_node ↦
            let tries =
              each-Tries g packet_cost budget state_limit rest (suc index) _ spec selected
                alternatives s1 s' deeper (rw open_node at h) in
            close_visit g packet_cost budget state_limit (alternatives ∷ rest) index selected s s'
              settled tries.improves tries.frame
              (λ t comp. node_found rest index alternatives selected s1 s' tries t comp)
              (λ at_depth. (at_depth, tries.settled))
      ]

  pub visit-Explored :
      (rest : List (List Set)) (index : ℕ)
      → Explored g packet_cost budget state_limit rest index
          (visit g packet_cost budget state_limit rest index)
  unfolding visit
  visit-Explored [] index selected s s' settled h =
      elim (Bool-cases (contains s.visited (index, selected))) [
        | inl memo ↦
            subst (Explores g packet_cost budget state_limit [] index selected s)
              (ok-injective (rw (memo, visit) at h))
              (visited_again [] index selected s settled memo)
        | inr fresh ↦
            let (s1, entering, r) =
              >>=-eq-ok (enter g packet_cost budget state_limit index selected s) _
                (rw (fresh, visit) at h) in
            let (c, priced, last) =
              >>=-eq-ok (price g packet_cost budget state_limit true selected) _ r in
            subst (Explores g packet_cost budget state_limit [] index selected s)
              (ap (λ x. settle g packet_cost budget state_limit selected x c)
                  (enter-eq-ok index selected s s1 entering)
                ∙ ok-injective last)
              (leaf-Explores index selected s c settled priced)
      ]
  visit-Explored (alternatives ∷ rest) index selected s s' settled h =
      elim (Bool-cases (contains s.visited (index, selected))) [
        | inl memo ↦
            subst (Explores g packet_cost budget state_limit (alternatives ∷ rest) index selected s)
              (ok-injective (rw (memo, visit) at h))
              (visited_again (alternatives ∷ rest) index selected s settled memo)
        | inr fresh ↦
            let (s1, entering, r) =
              >>=-eq-ok (enter g packet_cost budget state_limit index selected s) _
                (rw (fresh, visit) at h) in
            let (c, priced, last) =
              >>=-eq-ok (price g packet_cost budget state_limit false selected) _ r in
            let same = enter-eq-ok index selected s s1 entering in
            node-Explores rest index (visit-Explored rest (suc index)) alternatives selected s s' c
              settled priced
              (subst
                (λ (x : FactSearch).
                  (if is_none packet_cost && is_hopeless g packet_cost budget state_limit x c
                    then ok x
                    else each (visit g packet_cost budget state_limit rest (suc index)) selected
                        alternatives x)
                  ≡ ok s')
                (sym same) last)
      ]
