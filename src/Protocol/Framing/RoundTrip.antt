-- ===== src/Protocol/Framing/RoundTrip.antt =====
-- What `WriteMsg` writes, `ReadMsg` reads.
use kin.Base.{
  ℕ, ◌+◌, ◌-◌, ◌≤◌, ◌^◌, ◌%◌, ◌≡◌, refl, ◌∙◌, some, [], ◌∷◌, ◌++◌, append_assoc, arith, length,
  length-append, Bytes, ok,
}
use kin.Base.BigEndian.{be_value, length-be_bytes, be_value-be_bytes}
use kin.Base.Streams.{Ending, read_full-append, write_fits}
use kin.Protocol.Framing.{Codec, max_msg_size, header, write_msg, read_msg, read_sized}

pub length-header : (n : ℕ) → length (header n) ≡ 4
unfolding header
length-header n = length-be_bytes 4 _

pub be_value-header : (n : ℕ) → n ≤ max_msg_size → be_value (header n) ≡ n
unfolding header
be_value-header n h = be_value-be_bytes 4 (n % 2 ^ 32) (omega arith) ∙ omega arith

module _ (c : Codec) where
  open c use {Envelope, empty, marshal, unmarshal, unmarshal-marshal, unmarshal-nil}

  read_sized_lem :
      (env : Envelope) (body rest : Bytes) (e : Ending)
      → marshal env ≡ some body
      → length body ≤ max_msg_size
      → read_sized c (length body) (record { pending = body ++ rest; ending = e })
        ≡ (ok env, record { pending = rest; ending = e })
  read_sized_lem env [] rest e m h = cc (unmarshal-marshal env [] m, unmarshal-nil)
  read_sized_lem env (b ∷ bs) rest e m h = ground (
    arith,
    read_full-append (length (b ∷ bs)) (b ∷ bs) rest e refl,
    unmarshal-marshal env (b ∷ bs) m,
  )

  -- A message that was framed is read back, and the bytes behind it are left.
  read_frame_lem :
      (env : Envelope) (body rest : Bytes) (e : Ending)
      → marshal env ≡ some body
      → length body ≤ max_msg_size
      → read_msg c (record { pending = header (length body) ++ (body ++ rest); ending = e })
        ≡ (ok env, record { pending = rest; ending = e })
  unfolding read_msg
  read_frame_lem env body rest e m h =
      rw (read_full-append 4 (header (length body)) (body ++ rest) e (length-header (length body)))
        (rw (be_value-header (length body) h) (read_sized_lem env body rest e m h))

  -- Where the writer has room, the whole frame is written.
  write_msg_lem :
      (env : Envelope) (body sent : Bytes) (n : ℕ)
      → marshal env ≡ some body
      → length body ≤ max_msg_size
      → 4 + length body ≤ n
      → write_msg c env (record { written = sent; room = n }) ≡ (
        ok tt,
        record { written = (sent ++ header (length body)) ++ body; room = n - 4 - length body },
      )
  unfolding write_msg
  write_msg_lem env body sent n m h k = ground (
    arith,
    length-header (length body),
    write_fits (header (length body)) sent n,
    write_fits body (sent ++ header (length body)) (n - 4),
  )

  -- Sending a message of at most 4 MiB over a writer with room for it succeeds, and adds a frame to
  -- what was sent before; reading that frame, whatever follows it, gives the message and leaves
  -- exactly what follows.
  pub read_msg-write_msg :
      (env : Envelope) (body sent : Bytes) (n : ℕ)
      → marshal env ≡ some body
      → length body ≤ max_msg_size
      → 4 + length body ≤ n
      → (frame : Bytes) × (write_msg c env (record { written = sent; room = n })
          ≡ (ok tt, record { written = sent ++ frame; room = n - length frame }))
        × ((rest : Bytes) (e : Ending)
            → read_msg c (record { pending = frame ++ rest; ending = e })
              ≡ (ok env, record { pending = rest; ending = e }))
  read_msg-write_msg env body sent n m h k = (
    header (length body) ++ body,
    write_msg_lem env body sent n m h k
        ∙ ground (
          arith,
          append_assoc sent (header (length body)) body,
          length-append (header (length body)) body,
          length-header (length body),
        ),
    λ rest e. rw append_assoc (read_frame_lem env body rest e m h),
  )
