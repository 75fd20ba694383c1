-- ===== src/Protocol/Framing/Bounds.antt =====
-- How much `ReadMsg` takes off the stream.
use kin.Base.{
  ℕ, ◌+◌, ◌<◌, ◌^◌, ◌≡◌, refl, inl, inr, false, ◌++◌, arith, ltb, ◌==◌, Bytes, Result, ok, err,
  Bool-cases,
}
use kin.Base.BigEndian.{be_value, be_bytes, length-be_bytes, be_value-be_bytes}
use kin.Base.Streams.{
  Ending, Reader, ReadError, read_full-append, read_full, Consumes, Consumes-refl, Consumes-trans,
  Consumes-weaken, read_full-Consumes,
}
use kin.Protocol.Framing.{
  Codec, max_msg_size, read_too_large, read_msg, read_sized, read_body, after_header,
}

module _ (c : Codec) where
  -- Decoding the body leaves the reader alone.
  read_body_reader : (out : Result ReadError Bytes × Reader) → (read_body c out).1 ≡ out.1
  read_body_reader (ok body, r) = refl
  read_body_reader (err e, r) = refl

  read_body-Consumes :
      (size : ℕ) (r : Reader)
      → ltb max_msg_size size ≡ false
      → Consumes max_msg_size r (read_body c (read_full size r)).1
  read_body-Consumes size r fits = rw (read_body_reader (read_full size r)) (
      Consumes-weaken size max_msg_size r (read_full size r).1 (ground arith)
        (read_full-Consumes size r))

  read_sized-Consumes : (size : ℕ) (r : Reader) → Consumes max_msg_size r (read_sized c size r).1
  read_sized-Consumes size r = elim (Bool-cases (size == 0)) [
    | inl e ↦ rw e (Consumes-refl max_msg_size r)
    | inr e ↦ rw e (elim (Bool-cases (ltb max_msg_size size)) [
      | inl big ↦ rw big (Consumes-refl max_msg_size r)
      | inr fits ↦ rw fits (read_body-Consumes size r fits)
    ])
  ]

  after_header-Consumes :
      (r : Reader) (out : Result ReadError Bytes × Reader)
      → Consumes 4 r out.1
      → Consumes (4 + max_msg_size) r (after_header c out).1
  after_header-Consumes r (ok head, s) h =
      Consumes-trans 4 max_msg_size r s (read_sized c (be_value head) s).1 h
        (read_sized-Consumes (be_value head) s)
  after_header-Consumes r (err e, s) h = Consumes-weaken 4 (4 + max_msg_size) r s (omega arith) h

  -- Whatever the peer sends and however the call ends, `ReadMsg` takes at most 4 bytes of header
  -- and 4 MiB of body off the stream, in order, and skips nothing.
  pub read_msg-Consumes : (r : Reader) → Consumes (4 + max_msg_size) r (read_msg c r).1
  unfolding read_msg
  read_msg-Consumes r = after_header-Consumes r (read_full 4 r) (read_full-Consumes 4 r)

  -- A length field above 4 MiB is refused with the size that was asked for, and only the header has
  -- been taken off the stream.
  pub read_msg-too_large :
      (size : ℕ) (rest : Bytes) (e : Ending)
      → max_msg_size < size
      → size < 256 ^ 4
      → read_msg c (record { pending = be_bytes 4 size ++ rest; ending = e })
        ≡ (err (read_too_large size), record { pending = rest; ending = e })
  unfolding read_msg
  read_msg-too_large size rest e big h =
      rw (read_full-append 4 (be_bytes 4 size) rest e (length-be_bytes 4 size))
        (rw (be_value-be_bytes 4 size h) (ground arith))
