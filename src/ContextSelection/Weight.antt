-- ===== src/ContextSelection/Weight.antt =====
-- context_selection.rs, `cost`: the checked sum of `u64` costs against the plain sum.
use innen.Common.{
  ℕ, ◌+◌, ◌<◌, ◌≡◌, refl, true, false, none, some, List, [], ◌∷◌, arith, eqb_iff, contains, nat_eq,
  ok, Option-cases, inl, inr,
}
use innen.Common.Sets.{Set, insert, extend, contains-insert, IsSorted, Above-not_contains}
use innen.Common.Maps.{lookup, contains-keys-eq-lookup}
use innen.ContextSelection.Graph.{ContextGraph, knows, cost_from, cost, u64_mod}

module _ {F : Type 0} (g : ContextGraph F) where
  -- The cost of one id; of an id that is no node, 0.
  unfoldable pub weight_of : ℕ → ℕ
  weight_of id = elim (lookup id g.nodes) [ none ↦ 0 | some node ↦ node.cost ]

  unfoldable pub weight : List ℕ → ℕ
  weight [] = 0
  weight (id ∷ ids) = weight_of id + weight ids

  pub cost_from-eq-ok :
      (total r : ℕ) (ids : List ℕ)
      → cost_from g total ids ≡ ok r
      → (r ≡ total + weight ids) × ((v : ℕ) → contains ids v ≡ true → knows g v ≡ true)
  unfolding cost_from weight weight_of
  cost_from-eq-ok total r [] h = (ground arith, λ v m. cc)
  cost_from-eq-ok total r (id ∷ ids) h = elim (Option-cases (lookup id g.nodes)) [
    | inl absent ↦ cc
    | inr (node, found) ↦
        let (sum, known) = cost_from-eq-ok (total + node.cost) r ids (ground arith) in
        (
          ground arith,
          λ v m. ground (arith, known v, eqb_iff id v, contains-keys-eq-lookup v g.nodes),
        )
  ]

  pub cost_from-fits :
      (total : ℕ) (ids : List ℕ)
      → ((v : ℕ) → contains ids v ≡ true → knows g v ≡ true)
      → total + weight ids < u64_mod
      → cost_from g total ids ≡ ok (total + weight ids)
  unfolding cost_from weight weight_of
  cost_from-fits total [] known fits = ground arith
  cost_from-fits total (id ∷ ids) known fits = ground (
    arith,
    known id (ground arith),
    contains-keys-eq-lookup id g.nodes,
    cost_from-fits (total + weight_of id) ids (λ v m. known v (ground arith)),
  )

  pub weight-insert :
      (x : ℕ) (s : Set) → contains s x ≡ false → weight (insert x s) ≡ weight_of x + weight s
  unfolding weight insert
  weight-insert x [] h = refl
  weight-insert x (y ∷ s) h = ground (arith, weight-insert x s)

  pub weight-extend :
      (s : Set) (xs : Set)
      → IsSorted xs
      → ((v : ℕ) → contains xs v ≡ true → contains s v ≡ false)
      → weight (extend s xs) ≡ weight s + weight xs
  unfolding weight extend
  weight-extend s [] sorted new = omega arith
  weight-extend s (x ∷ xs) sorted new =
      let rest = weight-extend (insert x s) xs sorted.1 λ v m. ground (
        arith,
        contains-insert x s v,
        new v (ground arith),
        Above-not_contains x xs sorted.0,
        eqb_iff x v,
      ) in
      omega (arith, rest, weight-insert x s (new x (ground arith)))

  -- A sum that comes out is the plain sum, and every id of the set is a node.
  pub cost-eq-ok :
      (r : ℕ) (ids : Set)
      → cost g ids ≡ ok r
      → (r ≡ weight ids) × ((v : ℕ) → contains ids v ≡ true → knows g v ≡ true)
  unfolding cost
  cost-eq-ok r ids h = let (sum, known) = cost_from-eq-ok 0 r ids h in (omega arith, known)

  pub cost-fits :
      (ids : Set)
      → ((v : ℕ) → contains ids v ≡ true → knows g v ≡ true)
      → weight ids < u64_mod
      → cost g ids ≡ ok (weight ids)
  unfolding cost
  cost-fits ids known fits = ground (arith, cost_from-fits 0 ids known (omega arith))
