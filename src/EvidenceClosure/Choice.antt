-- ===== src/EvidenceClosure/Choice.antt =====
-- evidence_closure/evaluation.rs: a selection holds one alternative of each fact.
use innen.Common.{
  ℕ, ◌≡◌, refl, sym, true, ◌||◌, List, [], ◌∷◌, any, is_empty, contains, nat_eq, list_eq, ok,
  reject_if, subst, >>=-eq-ok, ok-injective, All, Memᴰ, inl, inr, arith,
}
use mathlib.Core.List.Memᴰ
use innen.Common.Text.{Text}
use innen.Common.Sets.{Set, union, contains-union, IsSorted}
use innen.ContextSelection.Graph.{Fact, ContextGraph, closure}
use innen.ContextSelection.Closure.{closure-IsClosure, IsWellFormed, seed}
use innen.ContextSelection.Facts.{close_all, close_facts}
use innen.ContextSelection.Facts.Explored.{Completes, done, pick}

-- One of the fact's alternatives is within the set.
abbrev pub Holds : Set → Fact → Type 0
Holds t fact =
    (a : Set) × Memᴰ a fact.alternatives × ((v : ℕ) → contains a v ≡ true → contains t v ≡ true)

Completes-contains :
    {rest : List (List Set)} {s t : Set}
    → Completes rest s t
    → (v : ℕ) → contains s v ≡ true
    → contains t v ≡ true
Completes-contains done v h = h
Completes-contains (pick {s} {a} m later) v h =
    Completes-contains later v (ground (arith, contains-union s a v))

Completes-cons :
    {alternatives : List Set} {rest : List (List Set)} {s t : Set}
    → Completes (alternatives ∷ rest) s t
    → (a : Set) × Memᴰ a alternatives × Completes rest (union s a) t
Completes-cons (pick {s} {a} m later) = (a, m, later)

module _ {F : Type 0} (g : ContextGraph F) (wf : IsWellFormed g) where
  close_all-back :
      (alternatives closed : List Set) {b : Set}
      → All IsSorted alternatives
      → close_all g alternatives ≡ ok closed
      → Memᴰ b closed
      → (a : Set) × Memᴰ a alternatives × ((v : ℕ) → contains a v ≡ true → contains b v ≡ true)
  unfolding close_all
  close_all-back [] closed {b} sorted h m =
      absurd (Memᴰ.not-nil (subst (Memᴰ b) (sym (ok-injective h)) m))
  close_all-back (a ∷ rest) closed {b} sorted h m =
      let (t, first, h1) = >>=-eq-ok (closure g a) _ h in
      let (ts, later, h2) = >>=-eq-ok (close_all g rest) _ h1 in
      elim (Memᴰ.cases_cons (subst (Memᴰ b) (sym (ok-injective h2)) m)) [
        | inl same ↦
            let closed' = closure-IsClosure g a t wf sorted.0 first in
            (a, Memᴰ.head refl, λ v k. rw same ((closed'.exact v).1 (seed k)))
        | inr there ↦
            let (a', m', sub) = close_all-back rest ts sorted.1 later there in
            (a', Memᴰ.tail m', sub)
      ]

  pub close_facts-Holds :
      (names : List Text) (facts : List Fact) (closed : List (List Set)) {s t : Set}
      → All (λ f. All IsSorted f.alternatives) facts
      → close_facts g names facts ≡ ok closed
      → Completes closed s t
      → All (Holds t) facts
  unfolding close_facts
  close_facts-Holds names [] closed sorted h comp = tt
  close_facts-Holds names (fact ∷ facts) closed {s} {t} sorted h comp =
      let bad =
        is_empty fact.id
        || contains names fact.id
        || is_empty fact.alternatives
        || any is_empty fact.alternatives in
      let (_, _, h0) = >>=-eq-ok (reject_if bad _) _ h in
      let (sets, closing, h1) = >>=-eq-ok (close_all g fact.alternatives) _ h0 in
      let (rest, later, h2) = >>=-eq-ok (close_facts g (fact.id ∷ names) facts) _ h1 in
      let (b, m, others) =
        Completes-cons (subst (λ x. Completes x s t) (sym (ok-injective h2)) comp) in
      let (a, m', sub) = close_all-back fact.alternatives sets sorted.0 closing m in
      (
        (a, m', λ v k. Completes-contains others v (ground (arith, contains-union s b v, sub v k))),
        close_facts-Holds (fact.id ∷ names) facts rest sorted.1 later others,
      )
