-- ===== src/Base/BigEndian.antt =====
-- Big-endian numbers: `binary.BigEndian.PutUint32`, `AppendUint16`, `Uint64` and the like.
use Prim.Native.Nat.{ℕ, zero, suc, ◌+◌, ◌*◌, ◌/◌, ◌%◌, ◌^◌, ◌<◌, ◌≤◌}
use native.Mathlib.Nat.{pow-suc, pow-le-pow_right}
use native.Mathlib.Omega.{arith}
use mathlib.Core.Path.{◌≡◌, refl, ◌∙◌}
use mathlib.Core.List.{[], ◌∷◌, ◌++◌}
use kin.Base.Lists.{length, length-append, All}
use kin.Base.Texts.{Bytes}

-- The `w` low bytes of `n`, the most significant first.
unfoldable pub be_bytes : ℕ → ℕ → Bytes
be_bytes zero n = []
be_bytes (suc w) n = be_bytes w (n / 256) ++ ((n % 256) ∷ [])

be_from : ℕ → Bytes → ℕ
be_from acc [] = acc
be_from acc (b ∷ bs) = be_from (acc * 256 + b) bs

unfoldable pub be_value : Bytes → ℕ
unfolding be_from
be_value = be_from 0

pub length-be_bytes : (w n : ℕ) → length (be_bytes w n) ≡ w
unfolding be_bytes
length-be_bytes zero n = refl
length-be_bytes (suc w) n =
    omega
      (arith, length-append (be_bytes w (n / 256)) ((n % 256) ∷ []), length-be_bytes w (n / 256))

be_from-append :
    (acc : ℕ) (bs : Bytes) (b : ℕ) → be_from acc (bs ++ b ∷ []) ≡ be_from acc bs * 256 + b
unfolding be_from
be_from-append acc [] b = refl
be_from-append acc (c ∷ bs) b = be_from-append (acc * 256 + c) bs b

-- A number that fits in `w` bytes is read back.
pub be_value-be_bytes : (w n : ℕ) → n < 256 ^ w → be_value (be_bytes w n) ≡ n
unfolding be_value be_bytes
be_value-be_bytes zero n h = omega arith
be_value-be_bytes (suc w) n h =
    be_from-append 0 (be_bytes w (n / 256)) (n % 256)
    ∙ omega (arith, be_value-be_bytes w (n / 256) smaller)
  where
    smaller : n / 256 < 256 ^ w
    smaller = omega (arith, pow-suc 256 w)

be_from-lt :
    (acc p : ℕ) (bs : Bytes)
    → acc < p
    → All (λ b. b < 256) bs
    → be_from acc bs < p * 256 ^ length bs
unfolding be_from
be_from-lt acc p [] h a = omega arith
be_from-lt acc p (b ∷ bs) h a =
    let later : be_from (acc * 256 + b) bs < p * 256 * 256 ^ length bs =
      be_from-lt (acc * 256 + b) (p * 256) bs (omega arith) a.1 in
    rw (pow-suc 256 (length bs)) (omega (arith, later))

-- Bytes that are bytes hold a number of that many bytes.
pub be_value-lt :
    (w : ℕ) (bs : Bytes) → length bs ≤ w → All (λ b. b < 256) bs → be_value bs < 256 ^ w
unfolding be_value
be_value-lt w bs h a =
    let small : be_from 0 bs < 1 * 256 ^ length bs = be_from-lt 0 1 bs (omega arith) a in
    omega (arith, small, pow-le-pow_right {n = 256} (omega arith) h)
