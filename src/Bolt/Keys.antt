-- ===== src/Bolt/Keys.antt =====
-- Keys in byte order, as `bytes.Compare` has it, and sorted lists of pairs.
use kin.Base.{
  ◌≡◌, Bool, true, false, ◌&&◌, ◌||◌, Option, none, some, List, [], ◌∷◌, ltb, ◌==◌, if◌then◌else◌,
  All, Bytes, eqb,
}

-- `bytes.Compare(xs, ys) < 0`
unfoldable pub before : Bytes → Bytes → Bool
before [] [] = false
before [] (y ∷ ys) = true
before (x ∷ xs) [] = false
before (x ∷ xs) (y ∷ ys) = ltb x y || (x == y && before xs ys)

-- `bytes.HasPrefix(xs, ps)`
unfoldable pub has_prefix : Bytes → Bytes → Bool
has_prefix xs [] = true
has_prefix [] (p ∷ ps) = false
has_prefix (x ∷ xs) (p ∷ ps) = x == p && has_prefix xs ps

unfoldable pub lookup : Bytes → List (Bytes × Bytes) → Option Bytes
lookup k [] = none
lookup k ((j, v) ∷ ps) = if eqb j k then some v else lookup k ps

-- Every key comes before all keys behind it.
abbrev pub IsSorted : List (Bytes × Bytes) → Type 0
IsSorted [] = Unit
IsSorted ((k, v) ∷ ps) = All (λ q. before k q.0 ≡ true) ps × IsSorted ps
