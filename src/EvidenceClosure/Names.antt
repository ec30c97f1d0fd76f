-- ===== src/EvidenceClosure/Names.antt =====
-- evidence_closure/evaluation.rs: from ids to the numbers that the selection works with, and back.
use innen.Common.{
  ℕ, zero, suc, ◌≡◌, refl, sym, ap, ◌∙◌, true, ◌||◌, some, List, [], ◌∷◌, get_elem?, contains,
  nat_eq, list_eq, ◌==◌, ==_iff, contains→Memᴰ, Memᴰ→contains, Outcome, ok, >>=-eq-ok, ok-injective,
  subst, Memᴰ, inl, inr, arith, Bool-cases,
}
use mathlib.Core.List.Memᴰ
use innen.Common.Text.{Text}
use innen.Common.Sets.{Set, contains-extend, IsSorted, IsSorted-extend}
use innen.Common.Dicts.{contains-insert_text, insert_text}
use innen.EvidenceClosure.Closure.{Alternative}
use innen.EvidenceClosure.Evaluation.{
  EvaluateError, map_ok, index_of, name_at, names_of, set_of_nodes, extend_texts,
}

module _ {ε} {E : Type ε} {A B : Type 0} (f : A → Outcome E B) where
  pub map_ok-Memᴰ :
      (xs : List A) {ys : List B} {x : A}
      → map_ok f xs ≡ ok ys
      → Memᴰ x xs
      → (y : B) × (f x ≡ ok y) × Memᴰ y ys
  map_ok-Memᴰ [] h m = absurd (Memᴰ.not-nil m)
  map_ok-Memᴰ (z ∷ xs) {ys} {x} h m =
      let (b, first, h1) = >>=-eq-ok (f z) _ h in
      let (bs, rest, h2) = >>=-eq-ok (map_ok f xs) _ h1 in
      elim (Memᴰ.cases_cons m) [
        | inl same ↦ (b, rw same first, subst (Memᴰ b) (ok-injective h2) (Memᴰ.head refl))
        | inr later ↦
            let (y, at', there) = map_ok-Memᴰ xs rest later in
            (y, at', subst (Memᴰ y) (ok-injective h2) (Memᴰ.tail there))
      ]

  pub map_ok-back :
      (xs : List A) {ys : List B} {y : B}
      → map_ok f xs ≡ ok ys
      → Memᴰ y ys
      → (x : A) × (f x ≡ ok y) × Memᴰ x xs
  map_ok-back [] {ys} {y} h m = absurd (Memᴰ.not-nil (subst (Memᴰ y) (sym (ok-injective h)) m))
  map_ok-back (z ∷ xs) {ys} {y} h m =
      let (b, first, h1) = >>=-eq-ok (f z) _ h in
      let (bs, rest, h2) = >>=-eq-ok (map_ok f xs) _ h1 in
      elim (Memᴰ.cases_cons (subst (Memᴰ y) (sym (ok-injective h2)) m)) [
        | inl same ↦ (z, rw same first, Memᴰ.head refl)
        | inr later ↦ let (x, at', there) = map_ok-back xs rest later in (x, at', Memᴰ.tail there)
      ]

-- The results do not depend on the type of the errors.
pub map_ok-again {ε δ} :
    {E : Type ε} {D : Type δ} {A B : Type 0} (f : A → Outcome E B) (g : A → Outcome D B)
    (xs : List A) {ys : List B}
    → ((a : A) (b : B) → f a ≡ ok b → g a ≡ ok b)
    → map_ok f xs ≡ ok ys
    → map_ok g xs ≡ ok ys
map_ok-again f g [] same h = ap ok (ok-injective h)
map_ok-again f g (x ∷ xs) same h =
    let (b, first, h1) = >>=-eq-ok (f x) _ h in
    let (bs, rest, h2) = >>=-eq-ok (map_ok f xs) _ h1 in
    rw (same x b first, map_ok-again f g xs same rest) (ap ok (ok-injective h2))

index_of-get_elem? :
    {E : Type 0} (ids : List Text) (id : Text) {i : ℕ}
    → index_of {E = E} ids id ≡ ok i
    → get_elem? ids i ≡ some id
unfolding index_of
index_of-get_elem? [] id h = cc
index_of-get_elem? {E} (x ∷ ids) id {i} h = elim (Bool-cases (x == id)) [
  | inl same ↦
      let zeroth : 0 ≡ i = ok-injective (rw (same, index_of) at h) in
      rw (← zeroth) (ap some ((==_iff x id).0 same))
  | inr other ↦
      let (j, there, last) = >>=-eq-ok (index_of {E = E} ids id) _ (rw (other, index_of) at h) in
      rw (← ok-injective last) (index_of-get_elem? {E = E} ids id there)
]

get_elem?-Memᴰ : {A : Type 0} (xs : List A) (i : ℕ) {x : A} → get_elem? xs i ≡ some x → Memᴰ x xs
get_elem?-Memᴰ [] i h = cc
get_elem?-Memᴰ (y ∷ xs) zero h = Memᴰ.head (cc)
get_elem?-Memᴰ (y ∷ xs) (suc i) h = Memᴰ.tail (get_elem?-Memᴰ xs i h)

pub contains-extend_texts :
    (s xs : List Text) (v : Text) → contains (extend_texts s xs) v ≡ (contains xs v || contains s v)
unfolding extend_texts
contains-extend_texts s [] v = refl
contains-extend_texts s (x ∷ xs) v =
    ground (arith, contains-extend_texts (insert_text x s) xs v, contains-insert_text x s v)

name_at-get_elem? :
    (ids : List Text) (i : ℕ) {id : Text}
    → name_at {E = EvaluateError} ids i ≡ ok id
    → get_elem? ids i ≡ some id
name_at-get_elem? [] i h = cc
name_at-get_elem? (x ∷ ids) zero h = ap some (ok-injective h)
name_at-get_elem? (x ∷ ids) (suc i) h = name_at-get_elem? ids i h

name_at-again :
    {D : Type 0} (ids : List Text) (i : ℕ) (id : Text)
    → name_at {E = EvaluateError} ids i ≡ ok id
    → name_at {E = D} ids i ≡ ok id
name_at-again [] i id h = cc
name_at-again (x ∷ ids) zero id h = ap ok (ok-injective h)
name_at-again (x ∷ ids) (suc i) id h = name_at-again ids i id h

pub names_of-again :
    {D : Type 0} (ids : List Text) (t : Set) {names : List Text}
    → names_of {E = EvaluateError} ids t ≡ ok names
    → names_of {E = D} ids t ≡ ok names
unfolding names_of
names_of-again {D} ids t h =
    let (texts, all_texts, last) = >>=-eq-ok (map_ok (name_at {E = EvaluateError} ids) t) _ h in
    rw
      (map_ok-again (name_at {E = EvaluateError} ids) (name_at {E = D} ids) t (name_at-again ids)
        all_texts)
      (ap ok (ok-injective last))

some-injective : {A : Type 0} {a b : A} → some a ≡ some b → a ≡ b
some-injective h = cc

-- An id with a number in the set is among the names of the set.
pub contains-names_of :
    (ids : List Text) (t : Set) {names : List Text} (a : Alternative) {is : Set}
    → set_of_nodes ids a ≡ ok is
    → names_of {E = EvaluateError} ids t ≡ ok names
    → ((i : ℕ) → contains is i ≡ true → contains t i ≡ true)
    → (v : Text) → contains a.nodes v ≡ true
    → contains names v ≡ true
unfolding names_of
contains-names_of ids t {names} a {is} numbered named sub v m =
    let (numbers, all', last) = >>=-eq-ok (map_ok (index_of ids) a.nodes) _ numbered in
    let (i, at', there) = map_ok-Memᴰ (index_of ids) a.nodes all' (contains→Memᴰ a.nodes v m) in
    let in_set : contains is i ≡ true =
      rw (← ok-injective last)
        (rw (contains-extend [] numbers i, Memᴰ→contains numbers there) refl) in
    let (texts, all_texts, last') =
      >>=-eq-ok (map_ok (name_at {E = EvaluateError} ids) t) _ named in
    let (id, named_id, there') =
      map_ok-Memᴰ (name_at {E = EvaluateError} ids) t all_texts
        (contains→Memᴰ t i (sub i in_set)) in
    let same : v ≡ id =
      some-injective (
        sym (index_of-get_elem? {E = EvaluateError} ids v at')
        ∙ name_at-get_elem? ids i named_id) in
    rw (← ok-injective last')
      (rw (contains-extend_texts [] texts v, same, Memᴰ→contains texts there') refl)

pub set_of_nodes-IsSorted :
    (ids : List Text) (a : Alternative) {is : Set} → set_of_nodes ids a ≡ ok is → IsSorted is
set_of_nodes-IsSorted ids a h =
    let (numbers, _, last) = >>=-eq-ok (map_ok (index_of ids) a.nodes) _ h in
    rw (← ok-injective last) (IsSorted-extend [] numbers tt)

-- A name of a set of numbers is one of the ids.
pub names_of-contains :
    (ids : List Text) (t : Set) {names : List Text} (v : Text)
    → names_of {E = EvaluateError} ids t ≡ ok names
    → contains names v ≡ true
    → contains ids v ≡ true
unfolding names_of
names_of-contains ids t {names} v named m =
    let (texts, all_texts, last) = >>=-eq-ok (map_ok (name_at {E = EvaluateError} ids) t) _ named in
    let m' : contains (extend_texts [] texts) v ≡ true = rw (ok-injective last) m in
    let found : contains texts v ≡ true = ground (arith, contains-extend_texts [] texts v) in
    let (i, at', there) =
      map_ok-back (name_at {E = EvaluateError} ids) t all_texts (contains→Memᴰ texts v found) in
    Memᴰ→contains ids (get_elem?-Memᴰ ids i (name_at-get_elem? ids i at'))
