-- ===== src/ContextSelection/Greedy/Total.antt =====
-- context_selection.rs, `select`: no lookup of a missing id, and enough fuel for the rounds.
use innen.Common.{
  ℕ, zero, suc, ◌+◌, ◌-◌, ◌≤◌, ◌<◌, ◌≡◌, ◌≢◌, true, false, not, none, List, [], ◌∷◌, arith, ltb,
  is_empty, length, contains, nat_eq, panic, Bool-cases, inl, inr, All, All-mem, subst,
  >>=-ne-panic, ok-ne-panic, reject_if-ne-panic, reject_if, Option-cases, any,
}
use innen.Common.Sets.{Set, insert, extend, difference, contains-difference, IsSorted}
use innen.Common.Maps.{lookup, keys, contains-keys-eq-lookup}
use innen.ContextSelection.Graph.{
  Float, budget_insufficient, ContextGraph, Node, closure, cost, cost_from, knows,
}
use innen.ContextSelection.Closure.{
  IsWellFormed, closure-IsClosure, missing, missing-insert-le, missing-insert-lt, missing-le-length,
  known-of-any, closure_returns,
}
use innen.ContextSelection.Greedy.{
  Best, relevances, weigh, consider_extra, consider, best_extra, greedy, closures_of, select,
}
use innen.ContextSelection.Greedy.Sound.{
  AreClosures, IsExtra, IsPick, best_extra-IsPick, closures_of-AreClosures,
}

missing-extend-le : (s : Set) (xs ks : List ℕ) → missing (extend s xs) ks ≤ missing s ks
unfolding extend
missing-extend-le s [] ks = omega arith
missing-extend-le s (x ∷ xs) ks =
    omega (arith, missing-extend-le (insert x s) xs ks, missing-insert-le x s ks)

missing-extend-lt :
    (s : Set) (xs ks : List ℕ)
    → is_empty xs ≡ false
    → ((v : ℕ) → contains xs v ≡ true → contains ks v ≡ true)
    → ((v : ℕ) → contains xs v ≡ true → contains s v ≡ false)
    → missing (extend s xs) ks < missing s ks
unfolding extend
missing-extend-lt s [] ks h sub new = cc
missing-extend-lt s (x ∷ xs) ks h sub new = omega (
  arith,
  missing-extend-le (insert x s) xs ks,
  missing-insert-lt x s ks (sub x (ground arith)) (new x (ground arith)),
)

cost_from-ne-panic :
    {F : Type 0} (g : ContextGraph F) (total : ℕ) (ids : List ℕ)
    → ((v : ℕ) → contains ids v ≡ true → knows g v ≡ true)
    → cost_from g total ids ≢ panic
unfolding cost_from
cost_from-ne-panic g total [] known = ok-ne-panic total
cost_from-ne-panic {F} g total (id ∷ ids) known =
    let rest = λ (node : Node F).
      cost_from-ne-panic g (total + node.cost) ids (λ v m. known v (ground arith)) in
    elim (Option-cases (lookup id g.nodes)) [
      | inl absent ↦
          absurd (ground (arith, known id (ground arith), contains-keys-eq-lookup id g.nodes))
      | inr (node, found) ↦ ground (arith, rest node)
    ]

cost-ne-panic :
    {F : Type 0} (g : ContextGraph F) (ids : Set)
    → ((v : ℕ) → contains ids v ≡ true → knows g v ≡ true)
    → cost g ids ≢ panic
unfolding cost
cost-ne-panic g ids known = cost_from-ne-panic g 0 ids known

module _ (float : Float) (g : ContextGraph float.F) where
  open float use {F}

  relevances-ne-panic :
      (ids : List ℕ)
      → ((v : ℕ) → contains ids v ≡ true → knows g v ≡ true)
      → relevances float g ids ≢ panic
  unfolding relevances
  relevances-ne-panic [] known = ok-ne-panic []
  relevances-ne-panic (id ∷ ids) known = elim (Option-cases (lookup id g.nodes)) [
    | inl absent ↦
        absurd (ground (arith, known id (ground arith), contains-keys-eq-lookup id g.nodes))
    | inr (node, found) ↦
        rw (found, relevances)
          (>>=-ne-panic (relevances float g ids) _
            (relevances-ne-panic ids (λ v m. known v (ground arith)))
            (λ rest _. ok-ne-panic (node.relevance ∷ rest)))
  ]

  consider-ne-panic :
      (s : Set) (room : ℕ) (best : Best F) (t : Set)
      → ((v : ℕ) → contains t v ≡ true → knows g v ≡ true)
      → consider float g s room best t ≢ panic
  unfolding consider consider_extra
  consider-ne-panic s room best t known =
      let fresh = λ (v : ℕ) (m : contains (difference t s) v ≡ true).
        known v (ground (arith, contains-difference t s v)) in
      elim (Bool-cases (is_empty (difference t s))) [
        | inl nothing ↦ rw (nothing, consider) (ok-ne-panic best)
        | inr some_new ↦
            rw (some_new, consider)
              (>>=-ne-panic (cost g (difference t s)) _ (cost-ne-panic g (difference t s) fresh)
                λ c _. elim (Bool-cases (ltb room c)) [
                  | inl dear ↦ rw dear (ok-ne-panic best)
                  | inr fits ↦ rw fits (
                      >>=-ne-panic (relevances float g (difference t s)) _
                        (relevances-ne-panic (difference t s) fresh)
                        (λ gains _. ok-ne-panic (weigh float g best (difference t s) c gains)))
                ])
      ]

  -- Every set of the list holds nodes only.
  abbrev AreKnown : List Set → Type 0
  AreKnown closures = All (λ t. (v : ℕ) → contains t v ≡ true → knows g v ≡ true) closures

  best_extra-ne-panic :
      (s : Set) (room : ℕ) (best : Best F) (closures : List Set)
      → AreKnown closures
      → best_extra float g s room best closures ≢ panic
  unfolding best_extra
  best_extra-ne-panic s room best [] known = ok-ne-panic best
  best_extra-ne-panic s room best (t ∷ closures) known =
      >>=-ne-panic (consider float g s room best t) _ (consider-ne-panic s room best t known.0)
        (λ next _. best_extra-ne-panic s room next closures known.1)

  extra_shrinks :
      (s : Set) (room : ℕ) (closures : List Set) (c : ℕ) (extra : Set)
      → AreKnown closures
      → IsExtra float g s room closures c extra
      → missing (extend s extra) (keys g.nodes) < missing s (keys g.nodes)
  extra_shrinks s room closures c extra known (t, m, e, some_new, _, _) =
      let member =
        All-mem (λ t. (v : ℕ) → contains t v ≡ true → knows g v ≡ true) closures known m in
      let new = λ (v : ℕ). contains-difference t s v in
      missing-extend-lt s extra (keys g.nodes) some_new (λ v q. ground (arith, new v, member v))
        (λ v q. ground (arith, new v))

  greedy-ne-panic :
      (fuel budget : ℕ) (closures : List Set) (s : Set) (c : ℕ)
      → AreKnown closures
      → missing s (keys g.nodes) < fuel
      → greedy float g fuel budget closures s c ≢ panic
  unfolding greedy
  greedy-ne-panic zero budget closures s c known h = absurd (omega arith)
  greedy-ne-panic (suc fuel) budget closures s c known h =
      >>=-ne-panic (best_extra float g s (budget - c) none closures) _
        (best_extra-ne-panic s (budget - c) none closures known)
        λ best picked.
          let pick =
            best_extra-IsPick float g s (budget - c) closures closures none best (λ _ m. m) tt
              picked in
          elim (Option-cases best) [
            | inl stop ↦ rw stop (ok-ne-panic (s, c))
            | inr ((d, x, extra), go) ↦ rw go (
                greedy-ne-panic fuel budget closures (extend s extra) (c + x) known (
                  omega (
                    arith,
                    extra_shrinks s (budget - c) closures x extra known
                        (subst (IsPick float g s (budget - c) closures) go pick),
                  )))
          ]

  closure-ne-panic : (seeds : Set) → IsWellFormed g → IsSorted seeds → closure g seeds ≢ panic
  unfolding closure
  closure-ne-panic seeds wf sorted = elim (Bool-cases (any (λ s. not (knows g s)) seeds)) [
    | inl bad ↦ rw (bad, closure) (λ q. cc)
    | inr good ↦
        let known = λ (v : ℕ). known-of-any g seeds v good in
        let (t, returns, _, _) = closure_returns g seeds wf sorted known in
        rw returns (ok-ne-panic t)
  ]

  AreClosures→AreKnown : (closures : List Set) → AreClosures float g closures → AreKnown closures
  AreClosures→AreKnown [] h = tt
  AreClosures→AreKnown (t ∷ closures) h = (h.0.1.known, AreClosures→AreKnown closures h.1)

  closures_of-ne-panic : (ids : List ℕ) → IsWellFormed g → closures_of float g ids ≢ panic
  unfolding closures_of
  closures_of-ne-panic [] wf = ok-ne-panic []
  closures_of-ne-panic (id ∷ ids) wf =
      >>=-ne-panic (closure g (id ∷ [])) _ (closure-ne-panic (id ∷ []) wf (tt, tt)) λ t _.
        >>=-ne-panic (closures_of float g ids) _ (closures_of-ne-panic ids wf)
          (λ rest _. ok-ne-panic (t ∷ rest))

-- Over a graph whose required ids are nodes, `select` ends without a panic, whatever the seeds, the
-- budget and the relevances are: its fuel is enough, and it looks up no id that is missing.
pub select_total :
    (float : Float) (g : ContextGraph float.F) (budget : ℕ) (seeds : Set)
    → IsWellFormed g
    → IsSorted seeds
    → select float g budget seeds ≢ panic
unfolding select
select_total float g budget seeds wf sorted =
    >>=-ne-panic (closure g seeds) _ (closure-ne-panic float g seeds wf sorted) λ s closed.
      >>=-ne-panic (cost g s) _
        (cost-ne-panic g s (closure-IsClosure g seeds s wf sorted closed).known)
        λ c _.
          >>=-ne-panic (reject_if (ltb budget c) (budget_insufficient c budget)) _
            (reject_if-ne-panic _ _)
            λ _ _.
              >>=-ne-panic (closures_of float g (keys g.nodes)) _
                (closures_of-ne-panic float g (keys g.nodes) wf)
                λ closures all.
                  >>=-ne-panic (greedy float g (suc (length (keys g.nodes))) budget closures s c) _
                    (greedy-ne-panic float g _ budget closures s c
                      (AreClosures→AreKnown float g closures
                        (closures_of-AreClosures float g (keys g.nodes) closures wf all))
                      (omega (arith, missing-le-length s (keys g.nodes))))
                    (λ last _. ok-ne-panic _)
