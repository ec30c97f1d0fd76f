-- ===== src/ContextSelection/Greedy/Sound.antt =====
-- context_selection.rs, `select`: every set that it returns fits the budget, is closed under the
-- requirements, and is charged what its ids cost.
use innen.Common.{
  ℕ, zero, suc, ◌+◌, ◌-◌, ◌≤◌, ◌<◌, ◌≡◌, refl, true, false, none, some, List, [], ◌∷◌, arith, ltb,
  is_empty, length, contains, nat_eq, ok, >>=-eq-ok, Bool-cases, inl, inr, Option-cases, reject_if,
  reject_if-eq-ok, Memᴰ, All, All-mem, subst, ok-injective,
}
use innen.Common.Sets.{
  Set, extend, difference, contains-extend, contains-difference, IsSorted, IsSorted-extend,
  IsSorted-difference,
}
use innen.Common.Maps.{keys}
use innen.ContextSelection.Graph.{
  Float, budget_insufficient, Selection, ContextGraph, closure, cost, knows, u64_mod,
}
use innen.ContextSelection.Closure.{
  Requires, IsWellFormed, Needs, through, IsClosure, closure-IsClosure,
}
use innen.ContextSelection.Weight.{weight, weight-extend, cost-eq-ok, cost-fits}
use innen.ContextSelection.Greedy.{
  Best, relevances, weigh, consider_extra, consider, best_extra, greedy, closures_of, select,
}

module _ (float : Float) (g : ContextGraph float.F) where
  open float use {F}

  -- Ids that one closure adds, at a cost that the room covers.
  abbrev pub IsExtra : Set → ℕ → List Set → ℕ → Set → Type 0
  IsExtra selected room closures extra_cost extra =
      (closed : Set) × Memᴰ closed closures
      × (extra ≡ difference closed selected)
      × (is_empty extra ≡ false)
      × (cost g extra ≡ ok extra_cost)
      × (extra_cost ≤ room)

  -- What the `for` loop keeps.
  abbrev pub IsPick : Set → ℕ → List Set → Best F → Type 0
  IsPick selected room closures none = Unit
  IsPick selected room closures (some (_, extra_cost, extra)) =
      IsExtra selected room closures extra_cost extra

  weigh-IsPick :
      (selected : Set) (room : ℕ) (closures : List Set) (best : Best F) (extra : Set) (c : ℕ)
      (gains : List F)
      → IsPick selected room closures best
      → IsExtra selected room closures c extra
      → IsPick selected room closures (weigh float g best extra c gains)
  unfolding weigh
  weigh-IsPick selected room closures best extra c gains old new = ground arith

  consider_extra-IsPick :
      (selected : Set) (room : ℕ) (closures : List Set) (best next : Best F) (closed : Set)
      → Memᴰ closed closures
      → is_empty (difference closed selected) ≡ false
      → IsPick selected room closures best
      → consider_extra float g room best (difference closed selected) ≡ ok next
      → IsPick selected room closures next
  unfolding consider_extra
  consider_extra-IsPick selected room closures best next closed m some_new old h =
      let extra = difference closed selected in
      let (c, costs, rest) = >>=-eq-ok (cost g extra) _ h in
      elim (Bool-cases (ltb room c)) [
        | inl dear ↦ subst (IsPick selected room closures) (ok-injective (rw dear at rest)) old
        | inr fits ↦
            let (gains, _, last) = >>=-eq-ok (relevances float g extra) _ (rw fits at rest) in
            subst (IsPick selected room closures) (ok-injective last) (
              weigh-IsPick selected room closures best extra c gains old
                (closed, m, refl, some_new, costs, ground arith))
      ]

  consider-IsPick :
      (selected : Set) (room : ℕ) (closures : List Set) (best next : Best F) (closed : Set)
      → Memᴰ closed closures
      → IsPick selected room closures best
      → consider float g selected room best closed ≡ ok next
      → IsPick selected room closures next
  unfolding consider
  consider-IsPick selected room closures best next closed m old h =
      elim (Bool-cases (is_empty (difference closed selected))) [
        | inl nothing ↦
            subst (IsPick selected room closures) (ok-injective (rw (nothing, consider) at h)) old
        | inr some_new ↦
            consider_extra-IsPick selected room closures best next closed m some_new old
              (rw (some_new, consider) at h)
      ]

  pub best_extra-IsPick :
      (selected : Set) (room : ℕ) (closures rest : List Set) (best next : Best F)
      → ((c : Set) → Memᴰ c rest → Memᴰ c closures)
      → IsPick selected room closures best
      → best_extra float g selected room best rest ≡ ok next
      → IsPick selected room closures next
  unfolding best_extra
  best_extra-IsPick selected room closures [] best next sub old h =
      subst (IsPick selected room closures) (ok-injective h) old
  best_extra-IsPick selected room closures (closed ∷ rest) best next sub old h =
      let (mid, now, later) = >>=-eq-ok (consider float g selected room best closed) _ h in
      best_extra-IsPick selected room closures rest mid next (λ c m. sub c (Memᴰ.tail m))
        (consider-IsPick selected room closures best mid closed (sub closed (Memᴰ.head refl)) old
          now)
        later

  -- A set under construction: closed, all nodes, charged what it costs, and within the budget.
  pub record IsFair (budget : ℕ) (seeds s : Set) (c : ℕ) : Type 0 where
    pub sorted : IsSorted s
    pub charged : c ≡ weight g s
    pub within : c ≤ budget
    pub known : (v : ℕ) → contains s v ≡ true → knows g v ≡ true
    pub complete : (v : ℕ) → Needs g seeds v → contains s v ≡ true
    pub closed : (u v : ℕ) → contains s u ≡ true → Requires g u v → contains s v ≡ true

  -- Every closure in the list is the closure of something.
  abbrev pub AreClosures : List Set → Type 0
  AreClosures closures = All (λ t. (seeds : Set) × IsClosure g seeds t) closures

  extend-IsFair :
      (budget : ℕ) (seeds s : Set) (c : ℕ) (closures : List Set) (extra_cost : ℕ) (extra : Set)
      → AreClosures closures
      → IsFair budget seeds s c
      → IsExtra s (budget - c) closures extra_cost extra
      → IsFair budget seeds (extend s extra) (c + extra_cost)
  extend-IsFair budget seeds s c closures extra_cost extra all h (t, m, e, _, costs, room) =
      let (roots, cl) = All-mem (λ t. (seeds : Set) × IsClosure g seeds t) closures all m in
      let (total, known') = cost-eq-ok g extra_cost extra costs in
      let now = λ (v : ℕ). contains-extend s extra v in
      let new = λ (v : ℕ). contains-difference t s v in
      record {
        sorted = IsSorted-extend s extra sorted;
        charged = omega (
          arith,
          weight-extend g s extra (rw e (IsSorted-difference t s cl.sorted))
              (λ v m. ground (arith, new v)),
        );
        within = omega arith;
        known = λ v m. ground (arith, now v, known v, known' v);
        complete = λ v n. ground (arith, now v, complete v n);
        closed = λ u v m r.
            let stays =
              λ (q : contains t u ≡ true). (cl.exact v).1 (through ((cl.exact u).0 q) r) in
            ground (arith, now u, now v, new u, new v, closed u v, stays);
      }
    where
      open h use {sorted, charged, within, known, complete, closed}

  closure-IsFair :
      (budget : ℕ) (seeds s : Set) (c : ℕ)
      → IsClosure g seeds s
      → cost g s ≡ ok c
      → ltb budget c ≡ false
      → IsFair budget seeds s c
  closure-IsFair budget seeds s c cl costs fits = record {
    sorted = cl.sorted;
    charged = (cost-eq-ok g c s costs).0;
    within = ground arith;
    known = cl.known;
    complete = λ v. (cl.exact v).1;
    closed = λ u v m r. (cl.exact v).1 (through ((cl.exact u).0 m) r);
  }

  cost_of_fair :
      (budget : ℕ) (seeds s : Set) (c : ℕ)
      → budget < u64_mod
      → IsFair budget seeds s c
      → cost g s ≡ ok c
  cost_of_fair budget seeds s c small h =
      rw h.charged (cost-fits g s h.known (omega (arith, h.charged, h.within)))

  greedy-IsFair :
      (fuel budget : ℕ) (seeds s : Set) (c : ℕ) (closures : List Set) (last : Set × ℕ)
      → AreClosures closures
      → IsFair budget seeds s c
      → greedy float g fuel budget closures s c ≡ ok last
      → IsFair budget seeds last.0 last.1
  unfolding greedy
  greedy-IsFair zero budget seeds s c closures last all h e = cc
  greedy-IsFair (suc fuel) budget seeds s c closures last all h e =
      let (best, picked, rest) = >>=-eq-ok (best_extra float g s (budget - c) none closures) _ e in
      let pick =
        best_extra-IsPick s (budget - c) closures closures none best (λ _ m. m) tt picked in
      elim (Option-cases best) [
        | inl stop ↦
            subst (λ (l : Set × ℕ). IsFair budget seeds l.0 l.1) (ok-injective (rw stop at rest)) h
        | inr ((d, x, extra), go) ↦
            greedy-IsFair fuel budget seeds (extend s extra) (c + x) closures last all
              (extend-IsFair budget seeds s c closures x extra all h
                (subst (IsPick s (budget - c) closures) go pick))
              (rw go at rest)
      ]

  pub closures_of-AreClosures :
      (ids : List ℕ) (closures : List Set)
      → IsWellFormed g
      → closures_of float g ids ≡ ok closures
      → AreClosures closures
  unfolding closures_of
  closures_of-AreClosures [] closures wf h = subst AreClosures (ok-injective h) tt
  closures_of-AreClosures (id ∷ ids) closures wf h =
      let (t, closed, rest) = >>=-eq-ok (closure g (id ∷ [])) _ h in
      let (others, rest_closed, last) = >>=-eq-ok (closures_of float g ids) _ rest in
      subst AreClosures (ok-injective last) (
        (id ∷ [], closure-IsClosure g (id ∷ []) t wf (tt, tt) closed),
        closures_of-AreClosures ids others wf rest_closed,
      )

-- A selection that `select` returns stays within the budget, is charged exactly the checked cost of
-- its ids, holds everything that the seeds need, and is closed under the requirements.
pub select_sound :
    (float : Float) (g : ContextGraph float.F) (budget : ℕ) (seeds : Set) (sel : Selection)
    → IsWellFormed g
    → IsSorted seeds
    → budget < u64_mod
    → select float g budget seeds ≡ ok sel
    → (sel.cost ≤ budget)
      × (sel.budget ≡ budget)
      × (cost g sel.selected ≡ ok sel.cost)
      × ((v : ℕ) → Needs g seeds v → contains sel.selected v ≡ true)
      × ((u v : ℕ)
          → contains sel.selected u ≡ true
          → Requires g u v
          → contains sel.selected v ≡ true)
unfolding select
select_sound float g budget seeds sel wf sorted small h =
    let (s, closed, h₁) = >>=-eq-ok (closure g seeds) _ h in
    let (c, costs, h₂) = >>=-eq-ok (cost g s) _ h₁ in
    let (_, fits, h₃) = >>=-eq-ok (reject_if (ltb budget c) (budget_insufficient c budget)) _ h₂ in
    let (closures, all, h₄) = >>=-eq-ok (closures_of float g (keys g.nodes)) _ h₃ in
    let (last, ran, h₅) =
      >>=-eq-ok (greedy float g (suc (length (keys g.nodes))) budget closures s c) _ h₄ in
    let start =
      closure-IsFair float g budget seeds s c (closure-IsClosure g seeds s wf sorted closed) costs
        (reject_if-eq-ok _ _ fits) in
    let fair =
      greedy-IsFair float g _ budget seeds s c closures last
        (closures_of-AreClosures float g (keys g.nodes) closures wf all) start ran in
    subst
      (λ (x : Selection).
        (x.cost ≤ budget)
        × (x.budget ≡ budget)
        × (cost g x.selected ≡ ok x.cost)
        × ((v : ℕ) → Needs g seeds v → contains x.selected v ≡ true)
        × ((u v : ℕ)
            → contains x.selected u ≡ true
            → Requires g u v
            → contains x.selected v ≡ true))
      (ok-injective h₅)
      (
        fair.within,
        refl,
        cost_of_fair float g budget seeds last.0 last.1 small fair,
        fair.complete,
        fair.closed,
      )
