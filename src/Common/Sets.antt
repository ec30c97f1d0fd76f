-- ===== src/Common/Sets.antt =====
-- `BTreeSet<u64>`: a strictly increasing list. Iteration is in list order.
use Prim.Native.Nat.{ℕ, ◌<◌}
use mathlib.Core.Path.{◌≡◌, refl}
use mathlib.Core.Bool.{Bool, false, not, ◌&&◌, ◌||◌}
use mathlib.Core.List.{List, [], ◌∷◌}
use native.Mathlib.Omega.{arith}
use innen.Common.Tests.{ltb, eqb, if◌then◌else◌}
use innen.Common.Lists.{filter}
use innen.Common.Equality.{contains, contains-filter, nat_eq}

abbrev pub Set : Type 0
Set = List ℕ

unfoldable pub insert : ℕ → Set → Set
insert x [] = x ∷ []
insert x (y ∷ ys) = if ltb x y then x ∷ y ∷ ys else (if eqb x y then y ∷ ys else y ∷ insert x ys)

-- `extend`, and `collect` from an iterator of ids.
unfoldable pub extend : Set → List ℕ → Set
extend s [] = s
extend s (x ∷ xs) = extend (insert x s) xs

unfoldable pub union : Set → Set → Set
unfolding extend
union s t = extend s t

unfoldable pub difference : Set → Set → Set
difference s t = filter (λ x. not (contains t x)) s

-- Everything in the set is above `n`.
abbrev pub Above : ℕ → Set → Type 0
Above n [] = Unit
Above n (x ∷ xs) = (n < x) × Above n xs

abbrev pub IsSorted : Set → Type 0
IsSorted [] = Unit
IsSorted (x ∷ xs) = Above x xs × IsSorted xs

pub contains-insert :
    (x : ℕ) (s : Set) (y : ℕ) → contains (insert x s) y ≡ (eqb x y || contains s y)
unfolding insert
contains-insert x [] y = ground arith
contains-insert x (z ∷ s) y = ground (arith, contains-insert x s y)

pub contains-extend :
    (s : Set) (xs : List ℕ) (y : ℕ) → contains (extend s xs) y ≡ (contains xs y || contains s y)
unfolding extend
contains-extend s [] y = refl
contains-extend s (x ∷ xs) y =
    ground (arith, contains-extend (insert x s) xs y, contains-insert x s y)

pub contains-union : (s t : Set) (y : ℕ) → contains (union s t) y ≡ (contains t y || contains s y)
unfolding union
contains-union s t y = contains-extend s t y

pub contains-difference :
    (s t : Set) (y : ℕ) → contains (difference s t) y ≡ (contains s y && not (contains t y))
unfolding difference
contains-difference s t y = contains-filter (λ x. not (contains t x)) s y

Above-weaken : (m n : ℕ) (s : Set) → m < n → Above n s → Above m s
Above-weaken m n [] h a = tt
Above-weaken m n (x ∷ s) h a = (omega arith, Above-weaken m n s h a.1)

Above-insert : (n x : ℕ) (s : Set) → n < x → Above n s → Above n (insert x s)
unfolding insert
Above-insert n x [] h a = (h, tt)
Above-insert n x (y ∷ s) h a = ground (arith, Above-insert n x s)

pub IsSorted-insert : (x : ℕ) (s : Set) → IsSorted s → IsSorted (insert x s)
unfolding insert
IsSorted-insert x [] h = (tt, tt)
IsSorted-insert x (y ∷ s) h =
    ground (arith, IsSorted-insert x s, Above-insert y x s, Above-weaken x y s)

pub IsSorted-extend : (s : Set) (xs : List ℕ) → IsSorted s → IsSorted (extend s xs)
unfolding extend
IsSorted-extend s [] h = h
IsSorted-extend s (x ∷ xs) h = IsSorted-extend (insert x s) xs (IsSorted-insert x s h)

pub IsSorted-union : (s t : Set) → IsSorted s → IsSorted (union s t)
unfolding union
IsSorted-union s t h = IsSorted-extend s t h

pub Above-not_contains : (n : ℕ) (s : Set) → Above n s → contains s n ≡ false
Above-not_contains n [] h = refl
Above-not_contains n (x ∷ s) h = ground (arith, Above-not_contains n s)

Above-filter : (p : ℕ → Bool) (n : ℕ) (s : Set) → Above n s → Above n (filter p s)
Above-filter p n [] h = tt
Above-filter p n (x ∷ s) h = ground (arith, Above-filter p n s)

IsSorted-filter : (p : ℕ → Bool) (s : Set) → IsSorted s → IsSorted (filter p s)
IsSorted-filter p [] h = tt
IsSorted-filter p (x ∷ s) h = ground (arith, IsSorted-filter p s, Above-filter p x s)

pub IsSorted-difference : (s t : Set) → IsSorted s → IsSorted (difference s t)
unfolding difference
IsSorted-difference s t h = IsSorted-filter (λ x. not (contains t x)) s h
