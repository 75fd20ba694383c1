-- ===== src/Base/Texts.antt =====
-- Equality of byte strings: Go's `==` on strings and arrays, and `bytes.Equal`.
use Prim.Native.Nat.{ℕ}
use mathlib.Core.Path.{◌≡◌, refl}
use mathlib.Core.Logic.{◌↔◌}
use mathlib.Core.Bool.{Bool, true, false, ◌&&◌}
use mathlib.Core.List.{List, [], ◌∷◌, ◌++◌}
use native.Mathlib.Omega.{arith}
use kin.Base.Tests.{◌==◌}
use kin.Base.Lists.{length}

-- Strings, `[]byte` and `[n]byte` are lists of byte values.
abbrev pub Bytes : Type 0
Bytes = List ℕ

unfoldable pub eqb : Bytes → Bytes → Bool
eqb [] [] = true
eqb [] (y ∷ ys) = false
eqb (x ∷ xs) [] = false
eqb (x ∷ xs) (y ∷ ys) = x == y && eqb xs ys

pub eqb_iff : (xs ys : Bytes) → (eqb xs ys ≡ true) ↔ (xs ≡ ys)
unfolding eqb
eqb_iff [] [] = (λ _. refl, λ _. refl)
eqb_iff [] (y ∷ ys) = ground arith
eqb_iff (x ∷ xs) [] = ground arith
eqb_iff (x ∷ xs) (y ∷ ys) = ground (arith, eqb_iff xs ys)

-- Two appends whose first parts are of one length are equal part by part.
pub eqb-append :
    (xs ys us vs : Bytes)
    → length xs ≡ length ys
    → eqb (xs ++ us) (ys ++ vs) ≡ eqb xs ys && eqb us vs
unfolding eqb
eqb-append [] [] us vs e = refl
eqb-append [] (y ∷ ys) us vs e = absurd (omega arith)
eqb-append (x ∷ xs) [] us vs e = absurd (omega arith)
eqb-append (x ∷ xs) (y ∷ ys) us vs e = ground (arith, eqb-append xs ys us vs (omega arith))
