-- ===== src/ContextSelection/Facts/Achieved.antt =====
-- context_selection.rs, `FactSearch::visit`: the best selection is always one of the combinations, at
-- its own price, within the budget.
use innen.Common.{
  ℕ, suc, ◌≤◌, ◌≡◌, refl, true, false, ◌&&◌, Option, none, some, List, [], ◌∷◌, arith, is_none,
  contains, nat_eq, list_eq, pair_eq, Outcome, ok, >>=-eq-ok, Bool-cases, inl, inr, Memᴰ, subst,
  ok-injective,
}
use innen.Common.Sets.{Set, union}
use innen.ContextSelection.Graph.{SelectionError, Selection, ContextGraph}
use innen.ContextSelection.Facts.{
  PacketCost, FactSearch, each, price, is_hopeless, enter, settle, visit,
}
use innen.ContextSelection.Facts.Explored.{Completes, done, pick}

module _ {F : Type 0} (g : ContextGraph F) (packet_cost : Option PacketCost)
    (budget state_limit : ℕ) (P : Set → Type 0) where
  abbrev pub IsAchieved : Option Selection → Type 0
  IsAchieved none = Unit
  IsAchieved (some b) =
      P b.selected
      × (price g packet_cost budget state_limit true b.selected ≡ ok b.cost)
      × (b.cost ≤ budget)

  abbrev pub Keeps :
      List (List Set) → (Set → FactSearch → Outcome SelectionError FactSearch) → Type 0
  Keeps rest f =
      (selected : Set) (s s' : FactSearch)
      → ((t : Set) → Completes rest selected t → P t)
      → IsAchieved s.best
      → f selected s ≡ ok s'
      → IsAchieved s'.best

  each-Keeps :
      (rest : List (List Set)) (f : Set → FactSearch → Outcome SelectionError FactSearch)
      → Keeps rest f
      → (selected : Set) (alternatives : List Set) (s s' : FactSearch)
      → ((a t : Set) → Memᴰ a alternatives → Completes rest (union selected a) t → P t)
      → IsAchieved s.best
      → each f selected alternatives s ≡ ok s'
      → IsAchieved s'.best
  unfolding each
  each-Keeps rest f keeps selected [] s s' lift old h =
      subst (λ (x : FactSearch). IsAchieved x.best) (ok-injective h) old
  each-Keeps rest f keeps selected (a ∷ alternatives) s s' lift old h =
      let (mid, first, others) = >>=-eq-ok (f (union selected a) s) _ h in
      each-Keeps rest f keeps selected alternatives mid s' (λ b t m. lift b t (Memᴰ.tail m))
        (keeps (union selected a) s mid (λ t. lift a t (Memᴰ.head refl)) old first) others

  settle-IsAchieved :
      (selected : Set) (s : FactSearch) (c : ℕ)
      → P selected
      → price g packet_cost budget state_limit true selected ≡ ok c
      → IsAchieved s.best
      → IsAchieved (settle g packet_cost budget state_limit selected s c).best
  unfolding settle
  settle-IsAchieved selected s c p priced old =
      elim (Bool-cases (is_hopeless g packet_cost budget state_limit s c)) [
        | inl bad ↦ rw bad old
        | inr good ↦ rw good (p, priced, ground arith)
      ]

  enter-best :
      (index : ℕ) (selected : Set) (s s' : FactSearch)
      → enter g packet_cost budget state_limit index selected s ≡ ok s'
      → s.best ≡ s'.best
  unfolding enter
  enter-best index selected s s' h = ground arith

  pub visit-Keeps :
      (rest : List (List Set)) (index : ℕ)
      → Keeps rest (visit g packet_cost budget state_limit rest index)
  unfolding visit
  visit-Keeps [] index selected s s' lift old h =
      elim (Bool-cases (contains s.visited (index, selected))) [
        | inl memo ↦
            subst (λ (x : FactSearch). IsAchieved x.best) (ok-injective (rw (memo, visit) at h)) old
        | inr fresh ↦
            let (s1, entering, r) =
              >>=-eq-ok (enter g packet_cost budget state_limit index selected s) _
                (rw (fresh, visit) at h) in
            let (c, priced, last) =
              >>=-eq-ok (price g packet_cost budget state_limit true selected) _ r in
            subst (λ (x : FactSearch). IsAchieved x.best) (ok-injective last)
              (settle-IsAchieved selected s1 c (lift selected done) priced
                (subst IsAchieved (enter-best index selected s s1 entering) old))
      ]
  visit-Keeps (alternatives ∷ rest) index selected s s' lift old h =
      elim (Bool-cases (contains s.visited (index, selected))) [
        | inl memo ↦
            subst (λ (x : FactSearch). IsAchieved x.best) (ok-injective (rw (memo, visit) at h)) old
        | inr fresh ↦
            let (s1, entering, r) =
              >>=-eq-ok (enter g packet_cost budget state_limit index selected s) _
                (rw (fresh, visit) at h) in
            let (c, priced, last) =
              >>=-eq-ok (price g packet_cost budget state_limit false selected) _ r in
            let kept = subst IsAchieved (enter-best index selected s s1 entering) old in
            let cut = is_none packet_cost && is_hopeless g packet_cost budget state_limit s1 c in
            elim (Bool-cases cut) [
              | inl stop ↦
                  subst (λ (x : FactSearch). IsAchieved x.best) (ok-injective (rw stop at last))
                    kept
              | inr go ↦
                  each-Keeps rest _ (visit-Keeps rest (suc index)) selected alternatives s1 s'
                    (λ a t m comp. lift t (pick m comp)) kept (rw go at last)
            ]
      ]
