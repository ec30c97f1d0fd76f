-- ===== src/ContextSelection/Tests.antt =====
-- context_selection.rs: small graphs, what the code returns on them, and instances of the theorems.
use innen.Common.{
  ℕ, ◌+◌, ◌≤◌, ◌<◌, ◌≡◌, ◌≢◌, ◌↔◌, ◌⊎◌, refl, true, false, none, List, [], ◌∷◌, arith, ltb, leb,
  contains, nat_eq, any, eqb, ok, err, panic, inl, inr, sym, Memᴰ, subst, Bool,
}
use mathlib.Core.List.Memᴰ
use innen.Common.Text.{codes}
use innen.Common.Sets.{Set, insert, extend, union, difference, IsSorted}
use innen.Common.Maps.{lookup, put}
use innen.ContextSelection.Graph.{
  Float, Node, Edge, requires, related, Fact, invalid, facts_infeasible, Selection, ContextGraph,
  neighbors, knows, new, closure, cost,
}
use innen.ContextSelection.Closure.{Requires, IsWellFormed, Needs, closure_returns}
use innen.ContextSelection.Construct.{says, HasPositiveCosts, new_lem}
use innen.ContextSelection.Greedy.{select, closures_of, greedy, best_extra, consider}
use innen.ContextSelection.Greedy.Sound.{select_sound}
use innen.ContextSelection.Greedy.Total.{select_total}
use innen.ContextSelection.Facts.{
  PacketCost, price, close_facts, select_facts_inner, select_facts, select_facts_by,
}
use innen.ContextSelection.Facts.Explored.{Completes}
use innen.ContextSelection.Facts.Limit.{tree_size, IsPriced, Begins, stay, take_one}
use innen.ContextSelection.Facts.Decides.{IsCheapest, select_facts_exact, select_facts_decides}

abbrev total : List ℕ → ℕ
total [] = 0
total (x ∷ xs) = x + total xs

-- Whole numbers for floats; a density is its gain.
abbrev whole : Float
whole = record {
  F = ℕ;
  zero_float = 0;
  is_finite = λ x. true;
  float_lt = ltb;
  float_le = leb;
  sum_floats = total;
  float_div = λ gain cost. gain;
  of_u64 = λ n. n;
}

abbrev node : ℕ → ℕ → ℕ → Node ℕ
node id cost relevance = record { id = id; cost = cost; relevance = relevance }

-- Selecting 2 also selects 1; the related node 3 is not pulled in.
abbrev nodes : List (Node ℕ)
nodes = node 2 10 1 ∷ node 1 10 0 ∷ node 3 100 0 ∷ []

abbrev edges : List Edge
edges =
    record { from = 2; to = 1; relation = requires }
    ∷ record { from = 2; to = 3; relation = related }
    ∷ []

abbrev graph : ContextGraph ℕ
graph = record {
  nodes = (1, node 1 10 0) ∷ (2, node 2 10 1) ∷ (3, node 3 100 0) ∷ [];
  required = (2, 1 ∷ []) ∷ [];
}

new-graph : new whole nodes edges ≡ ok graph
unfolding new lookup put insert
new-graph = refl

graph-IsWellFormed : IsWellFormed graph
graph-IsWellFormed = (new_lem whole nodes edges graph new-graph).2

program : Unit {0}
unfolding closure select closures_of greedy best_extra consider cost difference extend union insert
    lookup neighbors select_facts_inner select_facts select_facts_by
program = tt

closure_of_two : closure graph (2 ∷ []) ≡ ok (1 ∷ 2 ∷ [])
unfolding program
closure_of_two = refl

abbrev two : Selection
two = record { selected = 1 ∷ 2 ∷ []; cost = 20; budget = 20 }

select-two : select whole graph 20 (2 ∷ []) ≡ ok two
unfolding program
select-two = refl

greedy_two : select whole graph 20 [] ≡ ok two
unfolding program
greedy_two = refl

new_lem_example :
    ((v : ℕ) → knows graph v ≡ any (λ n. eqb n.id v) nodes)
    × ((u v : ℕ) → contains (neighbors graph u) v ≡ any (says u v) edges)
    × IsWellFormed graph
    × HasPositiveCosts whole graph.nodes
new_lem_example = new_lem whole nodes edges graph new-graph

two_known : (v : ℕ) → contains (2 ∷ []) v ≡ true → knows graph v ≡ true
two_known v m = ground arith

closure_returns_example :
    (t : Set) × (closure graph (2 ∷ []) ≡ ok t)
    × IsSorted t
    × ((v : ℕ) → (contains t v ≡ true) ↔ Needs graph (2 ∷ []) v)
closure_returns_example = closure_returns graph (2 ∷ []) graph-IsWellFormed (omega arith) two_known

unknown_seed : closure graph (2 ∷ 7 ∷ []) ≡ err (invalid (codes "unknown seed"))
unfolding program
unknown_seed = refl

select_sound_example :
    (two.cost ≤ 20)
    × (two.budget ≡ 20)
    × (cost graph two.selected ≡ ok two.cost)
    × ((v : ℕ) → Needs graph (2 ∷ []) v → contains two.selected v ≡ true)
    × ((u v : ℕ)
        → contains two.selected u ≡ true
        → Requires graph u v
        → contains two.selected v ≡ true)
select_sound_example =
    select_sound whole graph 20 (2 ∷ []) two graph-IsWellFormed (omega arith) (omega arith)
      select-two

select_total_example : select whole graph 20 (2 ∷ 7 ∷ []) ≢ panic
select_total_example = select_total whole graph 20 (2 ∷ 7 ∷ []) graph-IsWellFormed (omega arith)

-- Two facts that share evidence: node 3 serves both, at less than the two cheapest apart.
abbrev shared : ContextGraph ℕ
shared = record { nodes = (1, node 1 5 0) ∷ (2, node 2 5 0) ∷ (3, node 3 7 0) ∷ []; required = [] }

abbrev facts : List Fact
facts =
    record { id = codes "a"; alternatives = (1 ∷ []) ∷ (3 ∷ []) ∷ [] }
    ∷ record { id = codes "b"; alternatives = (2 ∷ []) ∷ (3 ∷ []) ∷ [] }
    ∷ []

abbrev three : Selection
three = record { selected = 3 ∷ []; cost = 7; budget = 7 }

select_shared : select_facts shared 7 facts 100 ≡ ok three
unfolding program
select_shared = refl

select_too_dear : select_facts shared 6 facts 100 ≡ err (facts_infeasible 6)
unfolding program
select_too_dear = refl

select_facts_exact_example :
    (closed : List (List Set)) × (close_facts shared [] facts ≡ ok closed)
    × IsCheapest shared none 7 100 closed three
unfolding program
select_facts_exact_example = select_facts_exact shared none 7 100 facts three select_shared

-- A cost that is not monotone under union: only the pair of nodes 1 and 2 is cheap.
abbrev packet : PacketCost
packet t = ok (elim (contains t 1) [ true ↦ 5 | false ↦ 100 ])

select_packet :
    select_facts_by shared 5 facts 7 packet
    ≡ ok (record { selected = 1 ∷ 2 ∷ []; cost = 5; budget = 5 })
unfolding program
select_packet = refl

abbrev closed_facts : List (List Set)
closed_facts = ((1 ∷ []) ∷ (3 ∷ []) ∷ []) ∷ ((2 ∷ []) ∷ (3 ∷ []) ∷ []) ∷ []

close_facts-facts : close_facts shared [] facts ≡ ok closed_facts
unfolding program
close_facts-facts = refl

size-closed_facts : tree_size closed_facts ≤ 7
unfolding tree_size
size-closed_facts = omega arith

Begins-cases :
    {s t : Set} {alternatives : List Set} {rest : List (List Set)}
    → Begins (alternatives ∷ rest) s t
    → (s ≡ t) ⊎ ((a : Set) × Memᴰ a alternatives × Begins rest (union s a) t)
Begins-cases stay = inl refl
Begins-cases (take_one {a = a} m b) = inr (a, m, b)

Begins-nil : {s t : Set} → Begins [] s t → s ≡ t
Begins-nil stay = refl

-- What holds of both alternatives of a fact.
of_two : (P : Set → Type 0) {a b c : Set} → Memᴰ a (b ∷ c ∷ []) → P b → P c → P a
of_two P m pb pc = elim (Memᴰ.cases_cons m) [
  | inl same ↦ subst P (sym same) pb
  | inr later ↦ elim (Memᴰ.cases_cons later) [
    | inl same ↦ subst P (sym same) pc
    | inr never ↦ absurd (Memᴰ.not-nil never)
  ]
]

abbrev IsCosted : Set → Type 0
IsCosted t = (leaf : Bool) → (c : ℕ) × (price shared none 7 7 leaf t ≡ ok c)

-- The start, one alternative, and one of each fact.
shared-IsPriced : IsPriced shared none 7 7 closed_facts []
unfolding program price
shared-IsPriced leaf t begins = elim (Begins-cases begins) [
  | inl same ↦ subst IsCosted same (λ l. (0, refl)) leaf
  | inr (a, m, more) ↦
      of_two
        (λ a'. (u : Set) → Begins ((((2 ∷ []) ∷ (3 ∷ []) ∷ []) ∷ [])) (union [] a') u → IsCosted u)
        m (λ u b. second (1 ∷ []) u b (λ l. (5, refl)) (λ l. (10, refl)) (λ l. (12, refl)))
        (λ u b. second (3 ∷ []) u b (λ l. (7, refl)) (λ l. (12, refl)) (λ l. (7, refl))) t more leaf
]
  where
    second :
        (s u : Set)
        → Begins (((2 ∷ []) ∷ (3 ∷ []) ∷ []) ∷ []) s u
        → IsCosted s
        → IsCosted (union s (2 ∷ []))
        → IsCosted (union s (3 ∷ []))
        → IsCosted u
    second s u begins alone two three = elim (Begins-cases begins) [
      | inl same ↦ subst IsCosted same alone
      | inr (a, m, more) ↦
          of_two (λ a'. (v : Set) → Begins [] (union s a') v → IsCosted v) m
            (λ v b. subst IsCosted (Begins-nil b) two) (λ v b. subst IsCosted (Begins-nil b) three)
            u more
    ]

select_facts_decides_example :
    ((sel : Selection) × (select_facts_inner shared 7 facts 7 none ≡ ok sel)
      × IsCheapest shared none 7 7 closed_facts sel)
    ⊎ ((select_facts_inner shared 7 facts 7 none ≡ err (facts_infeasible 7))
        × ((t : Set) (c : ℕ)
            → Completes closed_facts [] t
            → price shared none 7 7 true t ≡ ok c
            → 7 < c))
select_facts_decides_example =
    select_facts_decides shared none 7 7 facts closed_facts close_facts-facts shared-IsPriced
      size-closed_facts
