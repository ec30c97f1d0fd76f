-- ===== src/ContextSelection/Facts/Limit.antt =====
-- context_selection.rs, `FactSearch::visit`: a limit as large as the search tree is never met.
use innen.Common.{
  ℕ, suc, ◌+◌, ◌*◌, ◌≤◌, ◌<◌, ◌≡◌, refl, Bool, true, false, ◌&&◌, Option, List, [], ◌∷◌, arith,
  is_none, contains, nat_eq, list_eq, pair_eq, Outcome, ok, Bool-cases, inl, inr, length, Memᴰ,
}
use innen.Common.Sets.{Set, union}
use innen.ContextSelection.Graph.{SelectionError, ContextGraph}
use innen.ContextSelection.Facts.{
  PacketCost, FactSearch, each, price, is_hopeless, enter, settle, visit,
}
use innen.ContextSelection.Facts.Exact.{entered}

-- The nodes of the tree of choices.
unfoldable pub tree_size : List (List Set) → ℕ
tree_size [] = 1
tree_size (alternatives ∷ rest) = 1 + length alternatives * tree_size rest

-- The sets that come of one alternative for each of the first few facts, starting from a set.
pub data Begins : List (List Set) → Set → Set → Type 0 where
  stay : {closed : List (List Set)} {s : Set} → Begins closed s s
  take_one :
      {s a t : Set} {alternatives : List Set} {rest : List (List Set)}
      → Memᴰ a alternatives
      → Begins rest (union s a) t
      → Begins (alternatives ∷ rest) s t

module _ {F : Type 0} (g : ContextGraph F) (packet_cost : Option PacketCost)
    (budget state_limit : ℕ) where
  -- The cost fails of no set that the search may meet: none that one alternative for each of the first
  -- few facts makes of the start.
  abbrev pub IsPriced : List (List Set) → Set → Type 0
  IsPriced closed start =
      (leaf : Bool) (t : Set)
      → Begins closed start t
      → (c : ℕ) × (price g packet_cost budget state_limit leaf t ≡ ok c)

  -- The call returns, having counted at most `n` states.
  abbrev pub Within : ℕ → FactSearch → Outcome SelectionError FactSearch → Type 0
  Within n s m = (s' : FactSearch) × (m ≡ ok s') × (s'.states ≤ s.states + n)

  each-Within :
      (n : ℕ) (f : Set → FactSearch → Outcome SelectionError FactSearch)
      → (selected : Set) (alternatives : List Set)
      → ((a : Set) (s : FactSearch)
          → Memᴰ a alternatives
          → s.states + n ≤ state_limit
          → Within n s (f (union selected a) s))
      → (s : FactSearch) → s.states + length alternatives * n ≤ state_limit
      → Within (length alternatives * n) s (each f selected alternatives s)
  unfolding each
  each-Within n f selected [] within s room = (s, refl, omega arith)
  each-Within n f selected (a ∷ alternatives) within s room =
      let (mid, first, used) = within a s (Memᴰ.head refl) (omega arith) in
      let (s', others, more) =
        each-Within n f selected alternatives (λ b s' m. within b s' (Memᴰ.tail m)) mid
          (omega arith) in
      (s', rw first others, omega arith)

  enter-fits :
      (index : ℕ) (selected : Set) (s : FactSearch)
      → s.states < state_limit
      → enter g packet_cost budget state_limit index selected s
        ≡ ok (entered g packet_cost budget state_limit index selected s)
  unfolding enter
  enter-fits index selected s room = ground arith

  settle-states :
      (selected : Set) (s : FactSearch) (c : ℕ)
      → (settle g packet_cost budget state_limit selected s c).states ≡ s.states
  unfolding settle
  settle-states selected s c = ground arith

  pub visit-Within :
      (rest : List (List Set)) (index : ℕ) (selected : Set) (s : FactSearch)
      → IsPriced rest selected
      → s.states + tree_size rest ≤ state_limit
      → Within (tree_size rest) s (visit g packet_cost budget state_limit rest index selected s)
  unfolding visit tree_size
  visit-Within [] index selected s priced room =
      elim (Bool-cases (contains s.visited (index, selected))) [
        | inl memo ↦ (s, rw memo, omega arith)
        | inr fresh ↦
            let (c, cost_known) = priced true selected stay in
            let s1 = entered g packet_cost budget state_limit index selected s in
            (
              settle g packet_cost budget state_limit selected s1 c,
              rw (fresh, enter-fits index selected s (omega arith)) (rw cost_known),
              omega (arith, settle-states selected s1 c),
            )
      ]
  visit-Within (alternatives ∷ rest) index selected s priced room =
      elim (Bool-cases (contains s.visited (index, selected))) [
        | inl memo ↦ (s, rw memo, omega arith)
        | inr fresh ↦
            let (c, cost_known) = priced false selected stay in
            let s1 = entered g packet_cost budget state_limit index selected s in
            let entering = enter-fits index selected s (omega arith) in
            elim (Bool-cases
              (is_none packet_cost && is_hopeless g packet_cost budget state_limit s1 c)) [
                | inl cut ↦ (s1, rw (fresh, entering) (rw cost_known (rw cut)), omega arith)
                | inr go ↦
                    let (s', returns, used) =
                      each-Within (tree_size rest)
                        (visit g packet_cost budget state_limit rest (suc index)) selected
                        alternatives
                        (λ a mid m fits.
                          visit-Within rest (suc index) (union selected a) mid
                            (λ leaf t b. priced leaf t (take_one m b)) fits)
                        s1 (omega arith) in
                    (s', rw (fresh, entering) (rw cost_known (rw go returns)), omega arith)
              ]
      ]
