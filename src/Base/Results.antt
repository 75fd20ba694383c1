-- ===== src/Base/Results.antt =====
-- Results with an error, and what holds of them when they succeed.
use mathlib.Core.Path.{◌≡◌, refl, subst}

-- A Go function that returns `(T, error)` returns a `Result`; a chain of `if err != nil { return }`
-- is a `do` block.
pub data Result {ℓ} (E A : Type ℓ) : Type ℓ where
  ok : A → Result E A
  err : E → Result E A

infixl 5 ◌>>=◌
abbrev pub ◌>>=◌ {ℓ} : {E A B : Type ℓ} → Result E A → (A → Result E B) → Result E B
ok a >>= f = f a
err e >>= f = err e

-- The value has the property, if there is one.
pub data OnOk {ℓ κ} {E A : Type ℓ} (P : A → Type κ) : Result E A → Type (ℓ ⊔ κ) where
  value : {a : A} → P a → OnOk P (ok a)
  failure : {e : E} → OnOk P (err e)

module _ {ℓ κ} {E A : Type ℓ} (P : A → Type κ) where
  OnOk-at : {r : Result E A} → OnOk P r → (a : A) → r ≡ ok a → P a
  OnOk-at (value {a = b} h) a e = subst P (cc) h
  OnOk-at failure a e = cc

  pub OnOk-ok : (r : Result E A) {a : A} → OnOk P r → r ≡ ok a → P a
  OnOk-ok r {a} h e = OnOk-at h a e

pub OnOk-bind {ℓ κ} :
    {E A B : Type ℓ} (P : A → Type κ) (Q : B → Type κ) (r : Result E A) (f : A → Result E B)
    → OnOk P r
    → ((a : A) → P a → OnOk Q (f a))
    → OnOk Q (r >>= f)
OnOk-bind P Q (ok a) f (value h) k = k a h
OnOk-bind P Q (err e) f h k = failure

pub OnOk-weaken {ℓ κ} :
    {E A : Type ℓ} (P Q : A → Type κ) {r : Result E A} → OnOk P r → ((a : A) → P a → Q a) → OnOk Q r
OnOk-weaken P Q (value {a} h) k = value (k a h)
OnOk-weaken P Q failure k = failure

-- A chain that succeeds, taken apart at its first step.
pub >>=-eq-ok {ℓ} :
    {E A B : Type ℓ} (r : Result E A) (f : A → Result E B) {b : B}
    → (r >>= f) ≡ ok b
    → (a : A) × (r ≡ ok a) × (f a ≡ ok b)
>>=-eq-ok (ok a) f h = (a, refl, h)
>>=-eq-ok (err e) f h = cc

pub ok_injective {ℓ} : {E A : Type ℓ} {r : Result E A} {a b : A} → r ≡ ok a → r ≡ ok b → a ≡ b
ok_injective e f = cc
