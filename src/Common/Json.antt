-- ===== src/Common/Json.antt =====
-- `serde_json::Value`. Integers that fit `u64` are `num`, negative ones are `neg n` for -(n + 1), and
-- other numbers are `real`, by the bits of their `f64`.
use Prim.Native.Nat.{ℕ}
use mathlib.Core.Path.{◌≡◌, refl}
use mathlib.Core.Bool.{Bool, false}
use mathlib.Core.Option.{Option, none, some}
use native.Mathlib.Omega.{arith}
use innen.Common.Tests.{if◌then◌else◌}
use innen.Common.Equality.{◌==◌, ==_iff, nat_eq, list_eq}
use innen.Common.Text.{Text}

mutual
  pub data Json : Type 0 where
    null : Json
    bool : Bool → Json
    num : ℕ → Json
    neg : ℕ → Json
    real : ℕ → Json
    str : Text → Json
    arr : Items → Json
    obj : Fields → Json

  pub data Items : Type 0 where
    nil : Items
    cons : Json → Items → Items

  pub data Fields : Type 0 where
    end : Fields
    field : Text → Json → Fields → Fields

-- `Map::get`, and `insert`, which replaces the value of a key that is there.
abbrev pub get_field : Text → Fields → Option Json
get_field k end = none
get_field k (field j v fields) = let rest = get_field k fields in if j == k then some v else rest

unfoldable pub insert_field : Text → Json → Fields → Fields
insert_field k v end = field k v end
insert_field k v (field j w fields) =
    let rest = insert_field k v fields in if j == k then field k v fields else field j w rest

-- `Value::get(key)` on any value.
abbrev pub get : Text → Json → Option Json
get k (obj fields) = get_field k fields
get k _ = none

abbrev pub as_str : Json → Option Text
as_str (str s) = some s
as_str _ = none

abbrev pub as_bool : Json → Option Bool
as_bool (bool b) = some b
as_bool _ = none

abbrev pub as_u64 : Json → Option ℕ
as_u64 (num n) = some n
as_u64 _ = none

-- `.get(key).and_then(Value::as_str)`.
abbrev pub and_then {ℓ κ} : {A : Type ℓ} {B : Type κ} → Option A → (A → Option B) → Option B
and_then none f = none
and_then (some a) f = f a

abbrev pub text_of : Text → Fields → Option Text
text_of k fields = and_then (get_field k fields) as_str

pub get_field-insert_field :
    (k j : Text) (v : Json) (fields : Fields)
    → get_field j (insert_field k v fields) ≡ (if k == j then some v else get_field j fields)
unfolding insert_field
get_field-insert_field k j v end = refl
get_field-insert_field k j v (field i w fields) =
    ground (arith, get_field-insert_field k j v fields, ==_iff k j, ==_iff i k, ==_iff i j)

pub get_field-insert_other :
    (k j : Text) (v : Json) (fields : Fields)
    → (j == k) ≡ false
    → get_field k (insert_field j v fields) ≡ get_field k fields
get_field-insert_other k j v fields other = ground (arith, get_field-insert_field j k v fields)
