-- ===== src/Common/Results.antt =====
-- A value or an error, and chains of fallible steps.
use mathlib.Core.Path.{◌≡◌, refl, ap, subst}
use mathlib.Core.Bool.{Bool, true, false}
use route_prism.Common.Tests.{if◌then◌else◌}

pub data Result {ℓ} (E A : Type ℓ) : Type ℓ where
  value : A → Result E A
  failure : E → Result E A

infixl 5 ◌>>=◌
abbrev pub ◌>>=◌ {ℓ} : {E A B : Type ℓ} → Result E A → (A → Result E B) → Result E B
value a >>= f = f a
failure e >>= f = failure e

-- The parts of a chain that succeeds.
pub >>=-eq-value {ℓ} :
    {E A B : Type ℓ} (m : Result E A) (f : A → Result E B) {b : B}
    → (m >>= f) ≡ value b
    → (a : A) × (m ≡ value a) × (f a ≡ value b)
>>=-eq-value (value a) f h = (a, refl, h)
>>=-eq-value (failure e) f h = cc

-- A step that succeeds has passed its guard.
pub else-eq-value {ℓ} :
    {E A : Type ℓ} (b : Bool) (e : E) (m : Result E A) {a : A}
    → (if b then failure e else m) ≡ value a
    → (b ≡ false) × (m ≡ value a)
else-eq-value true e m h = cc
else-eq-value false e m h = (refl, h)

-- What holds of the value, if there is one.
abbrev pub OnValue {ℓ κ} : {E A : Type ℓ} → (A → Type κ) → Result E A → Type κ
OnValue P (value a) = P a
OnValue P (failure e) = Unit

module _ {ℓ κ} {E A : Type ℓ} (P : A → Type κ) where
  pub OnValue-intro : (m : Result E A) → ((a : A) → m ≡ value a → P a) → OnValue P m
  OnValue-intro (value a) h = h a refl
  OnValue-intro (failure e) h = tt

  pub OnValue-elim : (m : Result E A) → OnValue P m → (a : A) → m ≡ value a → P a
  OnValue-elim (value b) p a e = subst P (cc) p
  OnValue-elim (failure f) p a e = cc

  pub OnValue-bind {μ} :
      {B : Type ℓ} (Q : B → Type μ) (m : Result E A) (f : A → Result E B)
      → OnValue P m
      → ((a : A) → P a → OnValue Q (f a))
      → OnValue Q (m >>= f)
  OnValue-bind Q (value a) f p h = h a p
  OnValue-bind Q (failure e) f p h = tt

pub >>=-value {ℓ} :
    {E A B : Type ℓ} (m : Result E A) (f : A → Result E B) {a : A} → m ≡ value a → (m >>= f) ≡ f a
>>=-value m f e = ap (λ r. r >>= f) e
