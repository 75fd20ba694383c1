-- ===== src/Protocol/Framing/Tests.antt =====
-- A codec for runs, runs of the framing, and its theorems at concrete inputs.
use kin.Base.{◌+◌, ◌-◌, ◌≡◌, refl, sym, some, [], ◌∷◌, ◌++◌, arith, length, Bytes, ok, err}
use kin.Base.BigEndian.{be_bytes}
use kin.Base.Streams.{Ending, closed, Reader, read_full, Consumes, write}
use kin.Protocol.Framing.{Codec, max_msg_size, end_of_stream, header, write_msg, read_msg}
use kin.Protocol.Framing.RoundTrip.{read_msg-write_msg}
use kin.Protocol.Framing.Bounds.{read_msg-Consumes}

-- Messages that are their own encoding.
abbrev plain : Codec
plain = record {
  Envelope = Bytes;
  empty = [];
  marshal = some;
  unmarshal = some;
  unmarshal-marshal = λ env body h. sym h;
  unmarshal-nil = refl;
}

abbrev stream : Bytes → Reader
stream bs = record { pending = bs; ending = closed }

written_frame :
    (write_msg plain (7 ∷ 8 ∷ []) (record { written = []; room = 9 })).1.written
    ≡ 0 ∷ 0 ∷ 0 ∷ 2 ∷ 7 ∷ 8 ∷ []
unfolding write_msg header write be_bytes
written_frame = refl

end_of_stream_run : (read_msg plain (stream (0 ∷ 0 ∷ []))).0 ≡ err end_of_stream
unfolding read_msg read_full
end_of_stream_run = refl

read_msg-write_msg_example :
    (frame : Bytes) × (write_msg plain (7 ∷ []) (record { written = 9 ∷ []; room = 100 })
      ≡ (ok tt, record { written = 9 ∷ [] ++ frame; room = 100 - length frame }))
    × ((rest : Bytes) (e : Ending)
        → read_msg plain (record { pending = frame ++ rest; ending = e })
          ≡ (ok (7 ∷ []), record { pending = rest; ending = e }))
read_msg-write_msg_example =
    read_msg-write_msg plain (7 ∷ []) (7 ∷ []) (9 ∷ []) 100 refl (omega arith) (omega arith)

read_msg-Consumes_example :
    Consumes
      (4 + max_msg_size)
      (stream (0 ∷ 0 ∷ 0 ∷ 9 ∷ 1 ∷ []))
      (read_msg plain (stream (0 ∷ 0 ∷ 0 ∷ 9 ∷ 1 ∷ []))).1
read_msg-Consumes_example = read_msg-Consumes plain (stream (0 ∷ 0 ∷ 0 ∷ 9 ∷ 1 ∷ []))
