-- ===== src/Common/Results.antt =====
-- Fallible code: a value, the code's own error, or a panic (an index or an `unwrap` that fails).
use mathlib.Core.Path.{◌≡◌, refl, ap}
use mathlib.Core.Logic.{◌≢◌}
use mathlib.Core.Bool.{Bool, true, false}

pub data Outcome {ℓ κ} (E : Type ℓ) (A : Type κ) : Type (ℓ ⊔ κ) where
  ok : A → Outcome E A
  err : E → Outcome E A
  panic : Outcome E A

infixl 5 ◌>>=◌ ◌>>◌
abbrev pub ◌>>=◌ {ε ℓ κ} :
    {E : Type ε} {A : Type ℓ} {B : Type κ} → Outcome E A → (A → Outcome E B) → Outcome E B
ok a >>= f = f a
err e >>= f = err e
panic >>= f = panic

abbrev pub ◌>>◌ {ε ℓ} : {E : Type ε} {B : Type ℓ} → Outcome E (Unit {0}) → Outcome E B → Outcome E B
m >> k = m >>= λ _. k

-- `if bad { return Err(e) }`.
abbrev pub reject_if {ε} : {E : Type ε} → Bool → E → Outcome E (Unit {0})
reject_if true e = err e
reject_if false e = ok tt

-- A chain that ends well went well at each step.
pub >>=-eq-ok {ε ℓ κ} :
    {E : Type ε} {A : Type ℓ} {B : Type κ} (m : Outcome E A) (k : A → Outcome E B) {last : B}
    → (m >>= k) ≡ ok last
    → (first : A) × (m ≡ ok first) × (k first ≡ ok last)
>>=-eq-ok panic k done = cc
>>=-eq-ok (err e) k done = cc
>>=-eq-ok (ok first) k done = (first, refl, done)

pub reject_if-eq-ok {ε} :
    {E : Type ε} (b : Bool) (e : E) {u : Unit {0}} → reject_if b e ≡ ok u → b ≡ false
reject_if-eq-ok true e h = cc
reject_if-eq-ok false e h = refl

pub ok-injective {ε ℓ} :
    {E : Type ε} {A : Type ℓ} {a b : A} → ◌≡◌ {A = Outcome E A} (ok a) (ok b) → a ≡ b
ok-injective h = cc

-- A chain of steps does not panic if none of its steps does.
pub >>=-ne-panic {ε ℓ κ} :
    {E : Type ε} {A : Type ℓ} {B : Type κ} (m : Outcome E A) (f : A → Outcome E B)
    → m ≢ panic
    → ((a : A) → m ≡ ok a → f a ≢ panic)
    → (m >>= f) ≢ panic
>>=-ne-panic (ok a) f h k = k a refl
>>=-ne-panic (err e) f h k = λ q. cc
>>=-ne-panic panic f h k = absurd (h refl)

pub ok-ne-panic {ε ℓ} : {E : Type ε} {A : Type ℓ} (a : A) → ◌≢◌ {A = Outcome E A} (ok a) panic
ok-ne-panic a = λ q. cc

pub reject_if-ne-panic {ε} : {E : Type ε} (b : Bool) (e : E) → reject_if b e ≢ panic
reject_if-ne-panic true e = λ q. cc
reject_if-ne-panic false e = λ q. cc

abbrev pub map_err {ε ζ ℓ} :
    {E : Type ε} {D : Type ζ} {A : Type ℓ} → (E → D) → Outcome E A → Outcome D A
map_err f (ok a) = ok a
map_err f (err e) = err (f e)
map_err f panic = panic

pub map_err-eq-ok {ε ζ ℓ} :
    {E : Type ε} {D : Type ζ} {A : Type ℓ} (f : E → D) (m : Outcome E A) {a : A}
    → map_err f m ≡ ok a
    → m ≡ ok a
map_err-eq-ok f (ok a) h = ap ok (ok-injective h)
map_err-eq-ok f (err e) h = cc
map_err-eq-ok f panic h = cc
