-- ===== src/Common/Maps.antt =====
-- `BTreeMap<u64, V>`: an association list in increasing order of the keys.
use Prim.Native.Nat.{ℕ}
use mathlib.Core.Path.{◌≡◌, refl}
use mathlib.Core.Bool.{◌||◌}
use mathlib.Core.Option.{Option, none, some}
use mathlib.Core.List.{List, [], ◌∷◌}
use native.Mathlib.Omega.{arith}
use innen.Common.Tests.{ltb, eqb, is_some, if◌then◌else◌}
use innen.Common.Equality.{contains, nat_eq}

module _ {ℓ} {V : Type ℓ} where
  unfoldable pub lookup : ℕ → List (ℕ × V) → Option V
  lookup k [] = none
  lookup k ((j, v) ∷ m) = if eqb j k then some v else lookup k m

  unfoldable pub put : ℕ → V → List (ℕ × V) → List (ℕ × V)
  put k v [] = (k, v) ∷ []
  put k v ((j, w) ∷ m) =
      if ltb k j then (k, v) ∷ (j, w) ∷ m else (if eqb k j then (k, v) ∷ m else (j, w) ∷ put k v m)

  abbrev pub keys : List (ℕ × V) → List ℕ
  keys [] = []
  keys ((j, _) ∷ m) = j ∷ keys m

  abbrev pub values : List (ℕ × V) → List V
  values [] = []
  values ((_, v) ∷ m) = v ∷ values m

  pub lookup-put :
      (k j : ℕ) (v : V) (m : List (ℕ × V))
      → lookup j (put k v m) ≡ (if eqb k j then some v else lookup j m)
  unfolding lookup put
  lookup-put k j v [] = refl
  lookup-put k j v ((i, w) ∷ m) = ground (arith, lookup-put k j v m)

  pub contains-keys-put :
      (k j : ℕ) (v : V) (m : List (ℕ × V))
      → contains (keys (put k v m)) j ≡ (eqb k j || contains (keys m) j)
  unfolding put
  contains-keys-put k j v [] = refl
  contains-keys-put k j v ((i, w) ∷ m) = ground (arith, contains-keys-put k j v m)

  pub contains-keys-eq-lookup :
      (k : ℕ) (m : List (ℕ × V)) → contains (keys m) k ≡ is_some (lookup k m)
  unfolding lookup
  contains-keys-eq-lookup k [] = refl
  contains-keys-eq-lookup k ((i, w) ∷ m) = ground (arith, contains-keys-eq-lookup k m)
