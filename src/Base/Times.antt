-- ===== src/Base/Times.antt =====
-- `time.Time` in UTC and `time.Duration`: nanoseconds, a time counted from 1970.
use Prim.Native.Nat.{◌+◌, ◌*◌, ◌/◌, ◌≤◌}
use native.Mathlib.Omega.{arith}
use mathlib.Core.Path.{◌≡◌, ap}
use mathlib.Core.Bool.{Bool}
use kin.Base.Ints.{ℤ, pos, negsuc, ◌+ℤ◌, pos_part, neg_part, ltb_ℤ, leb_ℤ}

abbrev pub Time : Type 0
Time = ℤ

abbrev pub Duration : Type 0
Duration = ℤ

-- `t.Unix()`, which rounds down, and `time.Unix(s, 0)`.
unfoldable pub unix : Time → ℤ
unix (pos n) = pos (n / 1000000000)
unix (negsuc n) = negsuc (n / 1000000000)

unfoldable pub from_unix : ℤ → Time
from_unix (pos s) = pos (s * 1000000000)
from_unix (negsuc s) = negsuc (s * 1000000000 + 999999999)

-- `t.After(u)` and `t.Add(d)`.
abbrev pub after : Time → Time → Bool
after t u = ltb_ℤ u t

abbrev pub add : Time → Duration → Time
add t d = t +ℤ d

pub unix-from_unix : (s : ℤ) → unix (from_unix s) ≡ s
unfolding unix from_unix
unix-from_unix (pos s) = ap pos (omega arith)
unix-from_unix (negsuc s) = ap negsuc (omega arith)

-- Rounding down to seconds never moves a time forward.
pub from_unix-unix : (t : Time) → leb_ℤ (from_unix (unix t)) t ≡ Bool.true
unfolding unix from_unix
from_unix-unix (pos n) = ground arith
from_unix-unix (negsuc n) = ground arith

-- It moves it by less than a second.
pub unix_within :
    (t : Time)
    → pos_part t + neg_part (from_unix (unix t))
      ≤ pos_part (from_unix (unix t)) + neg_part t + 999999999
unfolding unix from_unix
unix_within (pos n) = omega arith
unix_within (negsuc n) = omega arith
