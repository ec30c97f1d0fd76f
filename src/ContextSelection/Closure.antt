-- ===== src/ContextSelection/Closure.antt =====
-- context_selection.rs, `closure`: what the constructor promises, that the loop ends, and that the
-- result is the set of the ids that the seeds require.
use innen.Common.{
  ℕ, zero, suc, ◌+◌, ◌≤◌, ◌<◌, ◌≡◌, refl, true, false, not, ◌||◌, ◌&&◌, some, List, [], ◌∷◌,
  reverse, arith, if◌then◌else◌, Bool-cases, any, length, contains, eqb_iff, ==_iff, nat_eq, ok,
  ◌⊎◌, inl, inr, ◌↔◌, sym, ◌∙◌, ok-injective, subst,
}
use mathlib.Core.List.{reverse_aux}
use innen.Common.Sets.{Set, insert, contains-insert, IsSorted, IsSorted-insert}
use innen.Common.Maps.{keys}
use innen.ContextSelection.Graph.{ContextGraph, neighbors, knows, push_new, drain, closure}

abbrev pub Requires : {F : Type 0} → ContextGraph F → ℕ → ℕ → Type 0
Requires g u v = contains (neighbors g u) v ≡ true

-- Every required id is a node.
abbrev pub IsWellFormed : {F : Type 0} → ContextGraph F → Type 0
IsWellFormed g = (u v : ℕ) → Requires g u v → knows g v ≡ true

-- The ids that the seeds require, directly or through others.
pub data Needs {F : Type 0} (g : ContextGraph F) (seeds : Set) : ℕ → Type 0 where
  seed : {v : ℕ} → contains seeds v ≡ true → Needs g seeds v
  through : {u v : ℕ} → Needs g seeds u → Requires g u v → Needs g seeds v

-- How many of the ids are not in the set.
abbrev pub missing : Set → List ℕ → ℕ
missing s [] = 0
missing s (k ∷ ks) = (if contains s k then 0 else 1) + missing s ks

pub missing-le-length : (s : Set) (ks : List ℕ) → missing s ks ≤ length ks
missing-le-length s [] = omega arith
missing-le-length s (k ∷ ks) = ground (arith, missing-le-length s ks)

pub missing-insert-le : (n : ℕ) (s : Set) (ks : List ℕ) → missing (insert n s) ks ≤ missing s ks
missing-insert-le n s [] = omega arith
missing-insert-le n s (k ∷ ks) = ground (arith, contains-insert n s k, missing-insert-le n s ks)

pub missing-insert-lt :
    (n : ℕ) (s : Set) (ks : List ℕ)
    → contains ks n ≡ true
    → contains s n ≡ false
    → missing (insert n s) ks < missing s ks
missing-insert-lt n s [] h new = cc
missing-insert-lt n s (k ∷ ks) h new =
    ground (arith, contains-insert n s k, missing-insert-le n s ks, missing-insert-lt n s ks)

module _ {F : Type 0} (g : ContextGraph F) where
  push_new-missing :
      (ks ns : List ℕ) (r : Set) (p : List ℕ)
      → ((v : ℕ) → contains ns v ≡ true → contains ks v ≡ true)
      → missing (push_new g ns r p).0 ks + length (push_new g ns r p).1 ≤ missing r ks + length p
  unfolding push_new
  push_new-missing ks [] r p sub = omega arith
  push_new-missing ks (n ∷ ns) r p sub = ground (
    arith,
    push_new-missing ks ns r p (λ v h. sub v (ground arith)),
    push_new-missing ks ns (insert n r) (n ∷ p) (λ v h. sub v (ground arith)),
    missing-insert-lt n r ks (sub n (ground arith)),
  )

  drain_ends :
      (ks : List ℕ) (fuel : ℕ) (r : Set) (p : List ℕ)
      → ((u v : ℕ) → Requires g u v → contains ks v ≡ true)
      → missing r ks + length p ≤ fuel
      → (t : Set) × (drain g fuel r p ≡ some t)
  unfolding drain
  drain_ends ks zero r [] sub h = (r, refl)
  drain_ends ks (suc fuel) r [] sub h = (r, refl)
  drain_ends ks zero r (id ∷ p) sub h = absurd (omega arith)
  drain_ends ks (suc fuel) r (id ∷ p) sub h =
      let next = push_new g (neighbors g id) r p in
      drain_ends ks fuel next.0 next.1 sub
        (omega (arith, push_new-missing ks (neighbors g id) r p (sub id)))

  contains-push_new :
      (ns : List ℕ) (r : Set) (p : List ℕ) (v : ℕ)
      → contains (push_new g ns r p).0 v ≡ (contains ns v || contains r v)
  unfolding push_new
  contains-push_new [] r p v = refl
  contains-push_new (n ∷ ns) r p v = ground (
    arith,
    contains-push_new ns r p v,
    contains-push_new ns (insert n r) (n ∷ p) v,
    contains-push_new ns r (n ∷ p) v,
    contains-push_new ns (insert n r) p v,
    contains-insert n r v,
  )

  -- An id waits if it waited, or is a neighbor that the result lacked.
  contains-pending :
      (ns : List ℕ) (r : Set) (p : List ℕ) (v : ℕ)
      → contains (push_new g ns r p).1 v ≡ (contains p v || (contains ns v && not (contains r v)))
  unfolding push_new
  contains-pending [] r p v = ground arith
  contains-pending (n ∷ ns) r p v = ground (
    arith,
    contains-pending ns r p v,
    contains-pending ns (insert n r) (n ∷ p) v,
    contains-insert n r v,
    eqb_iff n v,
  )

  module _ (seeds : Set) where
    record Inv (r : Set) (p : List ℕ) : Type 0 where
      sorted : IsSorted r
      seeded : (v : ℕ) → contains seeds v ≡ true → contains r v ≡ true
      sound : (v : ℕ) → contains r v ≡ true → Needs g seeds v
      waiting : (v : ℕ) → contains p v ≡ true → contains r v ≡ true
      closed :
          (u v : ℕ)
          → contains r u ≡ true
          → Requires g u v
          → (contains p u ≡ true) ⊎ (contains r v ≡ true)

    push_new-IsSorted :
        (ns : List ℕ) (r : Set) (p : List ℕ) → IsSorted r → IsSorted (push_new g ns r p).0
    unfolding push_new
    push_new-IsSorted [] r p h = h
    push_new-IsSorted (n ∷ ns) r p h = ground (
      arith,
      push_new-IsSorted ns r p h,
      push_new-IsSorted ns (insert n r) (n ∷ p) (IsSorted-insert n r h),
    )

    Inv-step :
        (id : ℕ) (r : Set) (p : List ℕ)
        → Inv r (id ∷ p)
        → Inv (push_new g (neighbors g id) r p).0 (push_new g (neighbors g id) r p).1
    Inv-step id r p h =
        let ns = neighbors g id in
        let grown = λ (v : ℕ). contains-push_new ns r p v in
        let queue = λ (v : ℕ). contains-pending ns r p v in
        let here = waiting id (ground arith) in
        record {
          sorted = push_new-IsSorted ns r p sorted;
          seeded = λ v m. ground (arith, grown v, seeded v);
          sound = λ v m. elim (Bool-cases (contains ns v)) [
            | inl new ↦ through (sound id here) new
            | inr old ↦ sound v (ground (arith, grown v))
          ];
          waiting = λ v m. ground (arith, grown v, queue v, waiting v);
          closed = λ u v m e.
              ground (arith, grown u, grown v, queue u, closed u v, eqb_iff id u, ==_iff id u);
        }
      where
        open h use {sorted, seeded, sound, waiting, closed}

    drain-Inv :
        (fuel : ℕ) (r : Set) (p : List ℕ) (t : Set) → Inv r p → drain g fuel r p ≡ some t → Inv t []
    unfolding drain
    drain-Inv zero r [] t h e = ground arith
    drain-Inv (suc fuel) r [] t h e = ground arith
    drain-Inv zero r (id ∷ p) t h e = cc
    drain-Inv (suc fuel) r (id ∷ p) t h e =
        let next = push_new g (neighbors g id) r p in
        drain-Inv fuel next.0 next.1 t (Inv-step id r p h) e

    complete : {t : Set} → Inv t [] → {v : ℕ} → Needs g seeds v → contains t v ≡ true
    complete h (seed {v} m) = h.seeded v m
    complete h (through {u} {v} n e) = ground (arith, h.closed u v (complete h n) e)

contains-reverse_aux :
    (s acc : List ℕ) (v : ℕ) → contains (reverse_aux s acc) v ≡ (contains s v || contains acc v)
contains-reverse_aux [] acc v = refl
contains-reverse_aux (x ∷ s) acc v = ground (arith, contains-reverse_aux s (x ∷ acc) v)

length-reverse_aux : (s acc : List ℕ) → length (reverse_aux s acc) ≡ length s + length acc
length-reverse_aux [] acc = omega arith
length-reverse_aux (x ∷ s) acc = omega (arith, length-reverse_aux s (x ∷ acc))

pub any-unknown :
    {F : Type 0} (g : ContextGraph F) (seeds : List ℕ)
    → ((v : ℕ) → contains seeds v ≡ true → knows g v ≡ true)
    → any (λ s. not (knows g s)) seeds ≡ false
any-unknown g [] h = refl
any-unknown g (x ∷ xs) h = ground (arith, h x, any-unknown g xs (λ v m. h v (ground arith)))

pub known-of-any :
    {F : Type 0} (g : ContextGraph F) (seeds : List ℕ) (v : ℕ)
    → any (λ s. not (knows g s)) seeds ≡ false
    → contains seeds v ≡ true
    → knows g v ≡ true
known-of-any g [] v h m = cc
known-of-any g (x ∷ xs) v h m = ground (arith, known-of-any g xs v, ==_iff x v)

start-Inv :
    {F : Type 0} (g : ContextGraph F) (seeds : Set)
    → IsSorted seeds
    → Inv g seeds seeds (reverse seeds)
start-Inv g seeds sorted = record {
  sorted = sorted;
  seeded = λ v m. m;
  sound = λ v m. seed m;
  waiting = λ v m. ground (arith, contains-reverse_aux seeds [] v);
  closed = λ u v m e. inl (ground (arith, contains-reverse_aux seeds [] u));
}

-- Over a graph whose required ids are nodes, and known seeds, `closure` returns, and its result holds
-- exactly the ids that the seeds need.
pub closure_returns :
    {F : Type 0} (g : ContextGraph F) (seeds : Set)
    → IsWellFormed g
    → IsSorted seeds
    → ((v : ℕ) → contains seeds v ≡ true → knows g v ≡ true)
    → (t : Set) × (closure g seeds ≡ ok t)
      × IsSorted t
      × ((v : ℕ) → (contains t v ≡ true) ↔ Needs g seeds v)
unfolding closure
closure_returns g seeds wf sorted known =
    let (t, ends) =
      drain_ends g (keys g.nodes) (length (keys g.nodes) + length seeds) seeds (reverse seeds) wf
        (omega (arith, missing-le-length seeds (keys g.nodes), length-reverse_aux seeds [])) in
    let inv = drain-Inv g seeds _ seeds (reverse seeds) t (start-Inv g seeds sorted) ends in
    (
      t,
      rw (any-unknown g seeds known, ends),
      Inv.sorted inv,
      λ v. (inv.sound v, complete g seeds inv),
    )

-- What a set that `closure` returns holds.
pub record IsClosure {F : Type 0} (g : ContextGraph F) (seeds t : Set) : Type 0 where
  pub sorted : IsSorted t
  pub exact : (v : ℕ) → (contains t v ≡ true) ↔ Needs g seeds v
  pub known : (v : ℕ) → contains t v ≡ true → knows g v ≡ true

Needs-known :
    {F : Type 0} (g : ContextGraph F) (seeds : Set)
    → IsWellFormed g
    → ((v : ℕ) → contains seeds v ≡ true → knows g v ≡ true)
    → {v : ℕ} → Needs g seeds v
    → knows g v ≡ true
Needs-known g seeds wf known (seed {v} m) = known v m
Needs-known g seeds wf known (through {u} {v} n r) = wf u v r

pub closure-IsClosure :
    {F : Type 0} (g : ContextGraph F) (seeds t : Set)
    → IsWellFormed g
    → IsSorted seeds
    → closure g seeds ≡ ok t
    → IsClosure g seeds t
unfolding closure
closure-IsClosure g seeds t wf sorted h =
    let known = λ (v : ℕ). known-of-any g seeds v (ground arith) in
    let (t', returns, sorted', exact) = closure_returns g seeds wf sorted known in
    let same : t' ≡ t = ok-injective (sym returns ∙ h) in
    record {
      sorted = subst IsSorted same sorted';
      exact = subst (λ s. (v : ℕ) → (contains s v ≡ true) ↔ Needs g seeds v) same exact;
      known = λ v m. Needs-known g seeds wf known ((exact v).0 (rw same m));
    }
