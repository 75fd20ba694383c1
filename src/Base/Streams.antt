-- ===== src/Base/Streams.antt =====
-- `io.Reader`, `io.ReadFull` and `io.Writer` over byte sequences.
use Prim.Native.Nat.{ℕ, ◌+◌, ◌-◌, ◌≤◌}
use native.Mathlib.Omega.{arith}
use mathlib.Core.Path.{◌≡◌, refl, sym, ap, ◌∙◌}
use mathlib.Core.Logic.{inl, inr}
use mathlib.Core.Bool.{Bool}
use mathlib.Core.List.{[], ◌∷◌, ◌++◌, [], append-nil, append_assoc}
use kin.Base.Tests.{leb, Bool-cases, if◌then◌else◌}
use kin.Base.Lists.{
  length, take, drop, take-append, drop-append, length-append, take-append-drop, length-take,
}
use kin.Base.Results.{Result, ok, err}
use kin.Base.Texts.{Bytes}

-- How a stream ends once its pending bytes are read: orderly, or with an error of its own.
pub data Ending : Type 0 where
  closed broken : Ending

pub record Reader : Type 0 where
  pub pending : Bytes
  pub ending : Ending

-- `io.EOF`, `io.ErrUnexpectedEOF`, and any other error of the reader.
pub data ReadError : Type 0 where
  eof unexpected_eof io_error : ReadError

short_read : Bytes → Ending → ReadError
short_read got broken = io_error
short_read [] closed = eof
short_read (b ∷ bs) closed = unexpected_eof

-- `io.ReadFull` into a buffer of `n` bytes, `n` not 0: what is pending is consumed on failure too.
unfoldable pub read_full : ℕ → Reader → Result ReadError Bytes × Reader
unfolding short_read
read_full n r =
    if leb n (length r.pending)
    then (ok (take n r.pending), record r { pending = drop n r.pending })
    else (err (short_read r.pending r.ending), record r { pending = [] })

pub read_full-append :
    (n : ℕ) (xs ys : Bytes) (e : Ending)
    → length xs ≡ n
    → read_full n (record { pending = xs ++ ys; ending = e })
      ≡ (ok xs, record { pending = ys; ending = e })
unfolding read_full
read_full-append n xs ys e h =
    ground (arith, length-append xs ys, take-append n xs ys, drop-append n xs ys)

-- A writer that takes `room` more bytes and then fails, as a broken connection does.
pub record Writer : Type 0 where
  pub written : Bytes
  pub room : ℕ

unfoldable pub write : Bytes → Writer → Bool × Writer
write p w =
    if leb (length p) w.room
    then (Bool.true, record { written = w.written ++ p; room = w.room - length p })
    else (Bool.false, record { written = w.written ++ take w.room p; room = 0 })

pub write_fits :
    (p q : Bytes) (n : ℕ)
    → length p ≤ n
    → write p (record { written = q; room = n })
      ≡ (Bool.true, record { written = q ++ p; room = n - length p })
unfolding write
write_fits p q n h = ground arith

-- From `r` to `r'` at most `n` bytes were taken off, and none was put back or skipped.
abbrev pub Consumes : ℕ → Reader → Reader → Type 0
Consumes n r r' = (used : Bytes) × (r.pending ≡ used ++ r'.pending) × (length used ≤ n)

pub Consumes-refl : (n : ℕ) (r : Reader) → Consumes n r r
Consumes-refl n r = ([], refl, omega arith)

pub Consumes-trans :
    (n m : ℕ) (r s t : Reader) → Consumes n r s → Consumes m s t → Consumes (n + m) r t
Consumes-trans n m r s t (u, p, h) (v, q, k) = (
  u ++ v,
  p ∙ ap (λ z. u ++ z) q ∙ sym (append_assoc u v t.pending),
  omega (arith, length-append {0} u v),
)

pub Consumes-weaken : (n m : ℕ) (r s : Reader) → n ≤ m → Consumes n r s → Consumes m r s
Consumes-weaken n m r s le (u, p, h) = (u, p, omega arith)

pub read_full-Consumes : (n : ℕ) (r : Reader) → Consumes n r (read_full n r).1
unfolding read_full
read_full-Consumes n r = elim (Bool-cases (leb n (length r.pending))) [
  | inl e ↦
      rw e (
        take n r.pending,
        sym (take-append-drop n r.pending),
        omega (arith, length-take n r.pending),
      )
  | inr e ↦ rw e (r.pending, sym (append-nil r.pending), ground arith)
]
