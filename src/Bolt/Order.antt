-- ===== src/Bolt/Order.antt =====
-- Byte order is a strict total order, and the keys with a prefix stand together in it.
use mathlib.Core.Bool.{false≢true}
use kin.Base.{
  ◌≡◌, refl, sym, ◌∙◌, inl, inr, true, false, [], ◌∷◌, arith, length, ◌++◌, Bytes, eqb, Bool-cases,
}
use kin.Bolt.Keys.{before, has_prefix}

pub before_trans :
    (xs ys zs : Bytes) → before xs ys ≡ true → before ys zs ≡ true → before xs zs ≡ true
unfolding before
before_trans [] [] zs h k = cc
before_trans [] (y ∷ ys) [] h k = cc
before_trans [] (y ∷ ys) (z ∷ zs) h k = refl
before_trans (x ∷ xs) [] zs h k = cc
before_trans (x ∷ xs) (y ∷ ys) [] h k = cc
before_trans (x ∷ xs) (y ∷ ys) (z ∷ zs) h k = ground (arith, before_trans xs ys zs)

-- A key that is neither equal to another nor before it stands behind it.
pub before_total : (xs ys : Bytes) → eqb xs ys ≡ false → before xs ys ≡ false → before ys xs ≡ true
unfolding before eqb
before_total [] [] e h = cc
before_total [] (y ∷ ys) e h = cc
before_total (x ∷ xs) [] e h = refl
before_total (x ∷ xs) (y ∷ ys) e h = ground (arith, before_total xs ys)

pub before-eqb : (xs ys : Bytes) → before xs ys ≡ true → eqb xs ys ≡ false
unfolding before eqb
before-eqb [] [] h = cc
before-eqb [] (y ∷ ys) h = refl
before-eqb (x ∷ xs) [] h = refl
before-eqb (x ∷ xs) (y ∷ ys) h = ground (arith, before-eqb xs ys)

-- A key before the prefix does not have it.
pub has_prefix-before : (k p : Bytes) → before k p ≡ true → has_prefix k p ≡ false
unfolding before has_prefix
has_prefix-before [] [] h = cc
has_prefix-before [] (y ∷ p) h = refl
has_prefix-before (x ∷ k) [] h = cc
has_prefix-before (x ∷ k) (y ∷ p) h = ground (arith, has_prefix-before k p)

-- Once a key at or behind the prefix does not have it, no later key does.
pub has_prefix-later :
    (k j p : Bytes)
    → before k p ≡ false
    → has_prefix k p ≡ false
    → before k j ≡ true
    → has_prefix j p ≡ false
unfolding before has_prefix
has_prefix-later k j [] a b c = b
has_prefix-later [] j (y ∷ p) a b c = cc
has_prefix-later (x ∷ k) [] (y ∷ p) a b c = refl
has_prefix-later (x ∷ k) (z ∷ j) (y ∷ p) a b c = ground (arith, has_prefix-later k j p)

-- What stands behind a key that is not before the prefix is not before it either.
pub before_later : (k j p : Bytes) → before k p ≡ false → before k j ≡ true → before j p ≡ false
before_later k j p a c = elim (Bool-cases (before j p)) [
  | inl t ↦ absurd (false≢true (sym a ∙ before_trans k j p c t))
  | inr f ↦ f
]

-- A prefix of the same length as a key's first part is that part.
pub has_prefix-append :
    (xs ys p : Bytes) → length xs ≡ length p → has_prefix (xs ++ ys) p ≡ eqb xs p
unfolding has_prefix eqb
has_prefix-append [] ys [] e = refl
has_prefix-append [] ys (y ∷ p) e = absurd (omega arith)
has_prefix-append (x ∷ xs) ys [] e = absurd (omega arith)
has_prefix-append (x ∷ xs) ys (y ∷ p) e = ground (arith, has_prefix-append xs ys p (omega arith))
