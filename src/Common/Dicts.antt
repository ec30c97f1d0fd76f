-- ===== src/Common/Dicts.antt =====
-- Maps and sets of texts. `BTreeMap<String, V>`, where only its entries are read, is an association
-- list; `BTreeSet<String>`, where its order is read, is a list that `insert_text` keeps sorted.
use mathlib.Core.Path.{◌≡◌, refl}
use mathlib.Core.Bool.{◌||◌}
use mathlib.Core.Option.{Option, none, some}
use mathlib.Core.List.{List, [], ◌∷◌, ◌++◌}
use native.Mathlib.Omega.{arith}
use innen.Common.Tests.{if◌then◌else◌}
use innen.Common.Equality.{◌==◌, ==_iff, nat_eq, list_eq, contains}
use innen.Common.Text.{Text, text_lt}

module _ {ℓ} {V : Type ℓ} where
  unfoldable pub lookup_text : Text → List (Text × V) → Option V
  lookup_text k [] = none
  lookup_text k ((j, v) ∷ m) = let rest = lookup_text k m in if j == k then some v else rest

module _ {ℓ} {V : Type ℓ} where
  -- `map.entry(k).or_default().push(v)`.
  unfoldable pub push_at : Text → V → List (Text × List V) → List (Text × List V)
  push_at k v [] = (k, v ∷ []) ∷ []
  push_at k v ((j, vs) ∷ m) =
      let rest = push_at k v m in if j == k then (j, vs ++ v ∷ []) ∷ m else (j, vs) ∷ rest

  abbrev pub entries : Option (List V) → List V
  entries none = []
  entries (some vs) = vs

  -- `map.get(k).into_iter().flatten()`.
  abbrev pub values_at : Text → List (Text × List V) → List V
  values_at k m = entries (lookup_text k m)

  pub values_at-push_at :
      (k j : Text) (v : V) (m : List (Text × List V))
      → values_at j (push_at k v m) ≡ (if k == j then values_at j m ++ v ∷ [] else values_at j m)
  unfolding lookup_text push_at
  values_at-push_at k j v [] = ground arith
  values_at-push_at k j v ((i, vs) ∷ m) =
      ground (arith, values_at-push_at k j v m, ==_iff k j, ==_iff i k, ==_iff i j)

unfoldable pub insert_text : Text → List Text → List Text
insert_text x [] = x ∷ []
insert_text x (y ∷ ys) =
    let rest = insert_text x ys in
    if x == y then y ∷ ys else if text_lt x y then x ∷ y ∷ ys else y ∷ rest

pub contains-insert_text :
    (x : Text) (s : List Text) (y : Text) → contains (insert_text x s) y ≡ (x == y || contains s y)
unfolding insert_text
contains-insert_text x [] y = refl
contains-insert_text x (z ∷ s) y =
    ground (arith, contains-insert_text x s y, ==_iff x y, ==_iff x z, ==_iff z y)

-- `BTreeMap::insert`, where the order of the keys is read.
unfoldable pub put_text {ℓ} : {V : Type ℓ} → Text → V → List (Text × V) → List (Text × V)
put_text k v [] = (k, v) ∷ []
put_text k v ((j, w) ∷ m) =
    let rest = put_text k v m in
    if k == j then (k, v) ∷ m else if text_lt k j then (k, v) ∷ (j, w) ∷ m else (j, w) ∷ rest
