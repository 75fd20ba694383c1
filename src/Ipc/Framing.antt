-- ===== src/Ipc/Framing.antt =====
-- internal/daemon/framing.go: JSON values with a 4-byte length in front.
use mathlib.Core.Path.{subst}
use kin.Base.{
  ℕ, ◌+◌, ◌-◌, ◌*◌, ◌^◌, ◌≤◌, ◌<◌, ◌≡◌, refl, Bool, true, false, Option, none, some, ◌++◌,
  append_assoc, append-nil, [], arith, ltb, ◌==◌, if◌then◌else◌, length, length-append, Bytes,
  Result, ok, err,
}
use kin.Base.BigEndian.{be_value}
use kin.Base.Streams.{
  Ending, Reader, ReadError, read_full, read_full-append, Writer, write, write_fits,
}
use kin.Bolt.{Json}
use kin.Protocol.Framing.{header}
use kin.Protocol.Framing.RoundTrip.{length-header, be_value-header}

-- `maxIPCMsgSize`, 4 MiB.
abbrev pub max_ipc_msg_size : ℕ
max_ipc_msg_size = 4 * 2 ^ 20

pub data WriteError : Type 0 where
  marshal_failed write_too_large header_write_failed body_write_failed : WriteError

pub data JsonError : Type 0 where
  header_failed body_failed : ReadError → JsonError
  read_too_large : ℕ → JsonError
  unmarshal_failed : JsonError

unfoldable pub write_body : Bytes → Bool × Writer → Result WriteError (Unit {0}) × Writer
write_body body (false, w) = (err header_write_failed, w)
write_body body (true, w) =
    let (done, w') = write body w in (if done then ok tt else err body_write_failed, w')

unfoldable pub write_frame : Bytes → Writer → Result WriteError (Unit {0}) × Writer
unfolding write_body
write_frame body w =
    if ltb max_ipc_msg_size (length body)
    then (err write_too_large, w)
    else write_body body (write (header (length body)) w)

module _ {A : Type 0} (json : Json A) where
  open json use {marshal, unmarshal, repair, unmarshal-marshal}

  -- `WriteJSON`
  unfoldable pub write_json : A → Writer → Result WriteError (Unit {0}) × Writer
  unfolding write_frame
  write_json v w = elim (marshal v) [
    | none ↦ (err marshal_failed, w)
    | some body ↦ write_frame body w
  ]

  abbrev pub parsed : Option A → Result JsonError A
  parsed none = err unmarshal_failed
  parsed (some v) = ok v

  abbrev pub read_body : Result ReadError Bytes × Reader → Result JsonError A × Reader
  read_body (ok body, r) = (parsed (unmarshal body), r)
  read_body (err e, r) = (err (body_failed e), r)

  abbrev pub read_sized : A → ℕ → Reader → Result JsonError A × Reader
  read_sized v size r =
      if size == 0
      then (ok v, r)
      else if ltb max_ipc_msg_size size
      then (err (read_too_large size), r)
      else read_body (read_full size r)

  abbrev pub after_header : A → Result ReadError Bytes × Reader → Result JsonError A × Reader
  after_header v (ok head, r) = read_sized v (be_value head) r
  after_header v (err e, r) = (err (header_failed e), r)

  -- `ReadJSON` into a variable that holds `v`: a message of no bytes leaves it so.
  unfoldable pub read_json : A → Reader → Result JsonError A × Reader
  read_json v r = after_header v (read_full 4 r)

  -- What JSON makes of a value, where it goes into a message.
  abbrev pub Fits : A → Bytes → Type 0
  Fits v body = (marshal v ≡ some body) × (1 ≤ length body) × (length body ≤ max_ipc_msg_size)

-- A body with its header.
abbrev pub frame : Bytes → Bytes
frame body = header (length body) ++ body

pub length-frame : (body : Bytes) → length (frame body) ≡ 4 + length body
length-frame body =
    omega (arith, length-append (header (length body)) body, length-header (length body))

module _ {A : Type 0} (json : Json A) where
  open json use {marshal, unmarshal, repair, unmarshal-marshal}

  -- Where the writer has room, the whole frame is written.
  pub write_json-frame :
      (v : A) (body sent : Bytes) (n : ℕ)
      → Fits json v body
      → length (frame body) ≤ n
      → write_json json v (record { written = sent; room = n })
        ≡ (ok tt, record { written = sent ++ frame body; room = n - length (frame body) })
  unfolding write_json write_frame write_body
  write_json-frame v body sent n (m, some_body, fits) k = ground (
    arith,
    length-header (length body),
    length-frame body,
    append_assoc sent (header (length body)) body,
    write_fits (header (length body)) sent n,
    write_fits body (sent ++ header (length body)) (n - 4),
  )

  read_sized-frame :
      (v v0 : A) (body rest : Bytes) (e : Ending)
      → Fits json v body
      → read_sized json v0 (length body) (record { pending = body ++ rest; ending = e })
        ≡ (ok (repair v), record { pending = rest; ending = e })
  read_sized-frame v v0 body rest e (m, some_body, fits) =
      ground (arith, read_full-append (length body) body rest e refl, unmarshal-marshal v body m)

  -- A frame is read back as what JSON keeps of the value, and the bytes behind it are left.
  pub read_json-frame :
      (v v0 : A) (body rest : Bytes) (e : Ending)
      → Fits json v body
      → read_json json v0 (record { pending = frame body ++ rest; ending = e })
        ≡ (ok (repair v), record { pending = rest; ending = e })
  unfolding read_json
  read_json-frame v v0 body rest e h =
      rw
        (
          append_assoc (header (length body)) body rest,
          read_full-append 4 (header (length body)) (body ++ rest) e (length-header (length body)),
          be_value-header (length body) (h.2),
        )
        (read_sized-frame v v0 body rest e h)

  -- A frame alone is read back.
  pub read_json-alone :
      (v v0 : A) (body : Bytes) (e : Ending)
      → Fits json v body
      → read_json json v0 (record { pending = frame body; ending = e })
        ≡ (ok (repair v), record { pending = []; ending = e })
  read_json-alone v v0 body e h =
      subst
        (λ p.
          read_json json v0 (record { pending = p; ending = e })
          ≡ (ok (repair v), record { pending = []; ending = e }))
        (append-nil (frame body)) (read_json-frame v v0 body [] e h)

  -- How a write that failed has ended.
  abbrev pub Failed : Result WriteError (Unit {0}) × Writer → Type 0
  Failed (ok u, w) = ⊥
  Failed (err e, w) = Unit {0}

  -- Where it has not, the write fails.
  pub write_json-short :
      (v : A) (body : Bytes) (w : Writer)
      → Fits json v body
      → w.room < length (frame body)
      → Failed (write_json json v w)
  unfolding write_json write_frame write_body write
  write_json-short v body w (m, some_body, fits) h =
      ground (arith, length-header (length body), length-frame body)
