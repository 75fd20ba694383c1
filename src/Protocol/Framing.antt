-- ===== src/Protocol/Framing.antt =====
-- internal/protocol/framing.go: messages with a 4-byte length in front.
pub mod RoundTrip
pub mod Bounds
mod Tests
use kin.Base.{
  ℕ, ◌+◌, ◌^◌, ◌%◌, ◌*◌, ◌≡◌, Bool, true, false, Option, none, some, List, [], ◌∷◌, ltb, ◌==◌,
  if◌then◌else◌, length, Bytes, Result, ok, err,
}
use kin.Base.BigEndian.{be_bytes, be_value}
use kin.Base.Streams.{Reader, ReadError, eof, unexpected_eof, io_error, read_full, Writer, write}

-- `maxMsgSize`, 4 MiB.
abbrev pub max_msg_size : ℕ
max_msg_size = 4 * 2 ^ 20

-- protobuf, as framing.go uses it. The empty input is the message with every field at its default.
pub record Codec : Type 1 where
  pub Envelope : Type 0
  pub empty : Envelope
  pub marshal : Envelope → Option Bytes
  pub unmarshal : Bytes → Option Envelope
  pub unmarshal-marshal :
      (env : Envelope) (body : Bytes) → marshal env ≡ some body → unmarshal body ≡ some env
  pub unmarshal-nil : unmarshal [] ≡ some empty

pub data WriteError : Type 0 where
  marshal_failed write_too_large header_write_failed body_write_failed : WriteError

pub data FrameError : Type 0 where
  end_of_stream : FrameError
  header_failed : ReadError → FrameError
  read_too_large : ℕ → FrameError
  body_failed : ReadError → FrameError
  unmarshal_failed : FrameError

-- The error that `ReadMsg` gives for a header it could not read.
pub header_error : ReadError → FrameError
header_error eof = end_of_stream
header_error unexpected_eof = end_of_stream
header_error io_error = header_failed io_error

-- The header of a body: `uint32(len(data))`, big-endian.
unfoldable pub header : ℕ → Bytes
header n = be_bytes 4 (n % 2 ^ 32)

write_body : Bytes → Bool × Writer → Result WriteError (Unit {0}) × Writer
write_body body (false, w) = (err header_write_failed, w)
write_body body (true, w) =
    let (done, w') = write body w in (if done then ok tt else err body_write_failed, w')

write_frame : Bytes → Writer → Result WriteError (Unit {0}) × Writer
unfolding write_body
write_frame body w =
    if ltb max_msg_size (length body)
    then (err write_too_large, w)
    else write_body body (write (header (length body)) w)

module _ (c : Codec) where
  open c use {Envelope, empty, marshal, unmarshal}

  -- `WriteMsg`
  pub write_msg : Envelope → Writer → Result WriteError (Unit {0}) × Writer
  unfolding write_frame
  write_msg env w = elim (marshal env) [
    | none ↦ (err marshal_failed, w)
    | some body ↦ write_frame body w
  ]

  abbrev decoded : Bytes → Result FrameError Envelope
  decoded body = elim (unmarshal body) [ none ↦ err unmarshal_failed | some env ↦ ok env ]

  abbrev read_body : Result ReadError Bytes × Reader → Result FrameError Envelope × Reader
  read_body (ok body, r) = (decoded body, r)
  read_body (err e, r) = (err (body_failed e), r)

  abbrev read_sized : ℕ → Reader → Result FrameError Envelope × Reader
  read_sized size r =
      if size == 0
      then (ok empty, r)
      else if ltb max_msg_size size
      then (err (read_too_large size), r)
      else read_body (read_full size r)

  abbrev after_header : Result ReadError Bytes × Reader → Result FrameError Envelope × Reader
  after_header (ok head, r) = read_sized (be_value head) r
  after_header (err e, r) = (err (header_error e), r)

  -- `ReadMsg`
  pub read_msg : Reader → Result FrameError Envelope × Reader
  unfolding header_error
  read_msg r = after_header (read_full 4 r)
