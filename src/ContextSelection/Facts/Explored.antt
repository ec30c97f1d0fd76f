-- ===== src/ContextSelection/Facts/Explored.antt =====
-- context_selection.rs, `FactSearch::visit`: what a call of it and its loop have explored.
use innen.Common.{
  ℕ, suc, ◌≤◌, ◌<◌, ◌≡◌, true, Option, some, List, [], ◌∷◌, arith, contains, nat_eq, list_eq,
  pair_eq, Outcome, ok, >>=-eq-ok, Bool-cases, inl, inr, Memᴰ, list_beq_iff, subst, ok-injective,
  sym,
}
use mathlib.Core.List.Memᴰ
use innen.Common.Sets.{Set, union, extend, insert}
use innen.ContextSelection.Graph.{SelectionError, Selection, ContextGraph}
use innen.ContextSelection.Weight.{weight}
use innen.ContextSelection.Facts.{PacketCost, FactSearch, each, price}

pub data Completes : List (List Set) → Set → Set → Type 0 where
  done : {s : Set} → Completes [] s s
  pick :
      {s a t : Set} {alternatives : List Set} {rest : List (List Set)}
      → Memᴰ a alternatives
      → Completes rest (union s a) t
      → Completes (alternatives ∷ rest) s t

weight-insert-le :
    {F : Type 0} (g : ContextGraph F) (x : ℕ) (s : Set) → weight g s ≤ weight g (insert x s)
unfolding weight insert
weight-insert-le g x [] = omega arith
weight-insert-le g x (y ∷ s) = ground (arith, weight-insert-le g x s)

weight-extend-le :
    {F : Type 0} (g : ContextGraph F) (s xs : Set) → weight g s ≤ weight g (extend s xs)
unfolding extend
weight-extend-le g s [] = omega arith
weight-extend-le g s (x ∷ xs) =
    omega (arith, weight-extend-le g (insert x s) xs, weight-insert-le g x s)

pub weight-Completes :
    {F : Type 0} (g : ContextGraph F) {rest : List (List Set)} {s t : Set}
    → Completes rest s t
    → weight g s ≤ weight g t
unfolding union
weight-Completes g (done {s}) = omega arith
weight-Completes g (pick {s} {a} m later) =
    omega (arith, weight-extend-le g s a, weight-Completes g later)

module _ {F : Type 0} (g : ContextGraph F) (packet_cost : Option PacketCost)
    (budget state_limit : ℕ) where
  -- The best so far is no dearer than the set, if that fits the budget at all.
  abbrev pub Dominates : Option Selection → Set → Type 0
  Dominates best t =
      (c : ℕ)
      → price g packet_cost budget state_limit true t ≡ ok c
      → c ≤ budget
      → (b : Selection) × (best ≡ some b) × (b.cost ≤ c)

  abbrev pub Improves : Option Selection → Option Selection → Type 0
  Improves old new =
      (b : Selection) → old ≡ some b → (b' : Selection) × (new ≡ some b') × (b'.cost ≤ b.cost)

  pub Improves-refl : (o : Option Selection) → Improves o o
  Improves-refl o b e = (b, e, omega arith)

  Improves-trans : (o p q : Option Selection) → Improves o p → Improves p q → Improves o q
  Improves-trans o p q h k b e =
      let (b', e', le) = h b e in let (b'', e'', le') = k b' e' in (b'', e'', omega arith)

  Dominates-Improves :
      (o p : Option Selection) (t : Set) → Improves o p → Dominates o t → Dominates p t
  Dominates-Improves o p t h d c e fits =
      let (b, found, le) = d c e fits in
      let (b', found', le') = h b found in (b', found', omega arith)

  -- Every completion of a recorded state at this depth is dominated.
  abbrev pub AtDepth : List (List Set) → ℕ → FactSearch → Type 0
  AtDepth rest index s =
      (u t : Set) → contains s.visited (index, u) ≡ true → Completes rest u t → Dominates s.best t

  -- The same at this depth and below.
  abbrev pub Settled : List (List Set) → ℕ → FactSearch → Type 0
  Settled [] index s = AtDepth [] index s × Unit {0}
  Settled (alternatives ∷ rest) index s =
      AtDepth (alternatives ∷ rest) index s × Settled rest (suc index) s

  pub record Explores (rest : List (List Set)) (index : ℕ) (selected : Set) (s s' : FactSearch)
      : Type 0 where
    pub improves : Improves s.best s'.best
    pub frame :
        (j : ℕ) (u : Set)
        → j < index
        → contains s'.visited (j, u) ≡ true
        → contains s.visited (j, u) ≡ true
    pub found : (t : Set) → Completes rest selected t → Dominates s'.best t
    pub settled : Settled rest index s'

  -- What a recorded state at index `i` leaves alone.
  pub Settled-enter :
      (rest : List (List Set)) (k i : ℕ) (u : Set) (n : ℕ) (s : FactSearch)
      → i < k
      → Settled rest k s
      → Settled rest k (record s { states = n; visited = (i, u) ∷ s.visited })
  Settled-enter [] k i u n s lt h = ((λ v t m c. h.0 v t (ground arith) c), tt)
  Settled-enter (a ∷ rest) k i u n s lt h =
      ((λ v t m c. h.0 v t (ground arith) c), Settled-enter rest (suc k) i u n s (omega arith) h.1)

  pub Settled-head :
      (rest : List (List Set)) (index : ℕ) (s : FactSearch)
      → Settled rest index s
      → AtDepth rest index s
  Settled-head [] index s h = h.0
  Settled-head (a ∷ rest) index s h = h.0

  -- What a call of `visit` at a depth does, whatever the state that it starts from.
  abbrev pub Explored :
      List (List Set) → ℕ → (Set → FactSearch → Outcome SelectionError FactSearch) → Type 0
  Explored rest index f =
      (selected : Set) (s s' : FactSearch)
      → Settled rest index s
      → f selected s ≡ ok s'
      → Explores rest index selected s s'

  -- What the loop over the alternatives does.
  pub record Tries (alternatives : List Set) (rest : List (List Set)) (index : ℕ) (selected : Set)
      (s s' : FactSearch) : Type 0 where
    pub improves : Improves s.best s'.best
    pub frame :
        (j : ℕ) (u : Set)
        → j < index
        → contains s'.visited (j, u) ≡ true
        → contains s.visited (j, u) ≡ true
    pub found :
        (a t : Set)
        → Memᴰ a alternatives
        → Completes rest (union selected a) t
        → Dominates s'.best t
    pub settled : Settled rest index s'

  pub each-Tries :
      (rest : List (List Set)) (index : ℕ)
      (f : Set → FactSearch → Outcome SelectionError FactSearch)
      → Explored rest index f
      → (selected : Set) (alternatives : List Set) (s s' : FactSearch) → Settled rest index s
      → each f selected alternatives s ≡ ok s'
      → Tries alternatives rest index selected s s'
  unfolding each
  each-Tries rest index f spec selected [] s s' settled h =
      let same = ok-injective h in
      subst (Tries [] rest index selected s) same (record {
        improves = Improves-refl s.best;
        frame = λ j u lt m. m;
        found = λ a t m c. absurd (Memᴰ.not-nil m);
        settled = settled;
      })
  each-Tries rest index f spec selected (a ∷ alternatives) s s' settled h =
      let (mid, first, others) = >>=-eq-ok (f (union selected a) s) _ h in
      let now = spec (union selected a) s mid settled first in
      let later = each-Tries rest index f spec selected alternatives mid s' now.settled others in
      record {
        improves = Improves-trans s.best mid.best s'.best now.improves later.improves;
        frame = λ j u lt m. now.frame j u lt (later.frame j u lt m);
        found = λ b t m c. elim (Memᴰ.cases_cons m) [
          | inl e ↦
              Dominates-Improves mid.best s'.best t later.improves
                (now.found t (subst (λ (x : Set). Completes rest (union selected x) t) e c))
          | inr behind ↦ later.found b t behind c
        ];
        settled = later.settled;
      }

  -- The whole of `visit` after the memo, from what its loop or its leaf does.
  pub close_visit :
      (rest : List (List Set)) (index : ℕ) (selected : Set) (s s' : FactSearch)
      → Settled rest index s
      → Improves s.best s'.best
      → ((j : ℕ) (u : Set)
          → j < suc index
          → contains s'.visited (j, u) ≡ true
          → contains ((index, selected) ∷ s.visited) (j, u) ≡ true)
      → ((t : Set) → Completes rest selected t → Dominates s'.best t)
      → (AtDepth rest index s' → Settled rest index s')
      → Explores rest index selected s s'
  close_visit rest index selected s s' before improves frame found below = record {
    improves = improves;
    frame = λ j u lt m. ground (arith, frame j u (omega arith) m);
    found = found;
    settled = below λ u t m c. elim (Bool-cases (contains s.visited (index, u))) [
      | inl old ↦
          Dominates-Improves s.best s'.best t improves (Settled-head rest index s before u t old c)
      | inr new ↦
          let same = (list_beq_iff selected u).0 (ground (arith, frame index u (omega arith) m)) in
          found t (subst (λ (x : Set). Completes rest x t) (sym same) c)
    ];
  }
