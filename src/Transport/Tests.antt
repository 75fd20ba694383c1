-- ===== src/Transport/Tests.antt =====
-- A dial and an accept, and the theorem at concrete inputs.
use kin.Base.{
  ◌≡◌, eqb, refl, Bool, true, Option, none, some, List, [], ◌∷◌, Bytes, ok, err, if◌then◌else◌,
  arith,
}
use kin.Base.Streams.{closed, write, read_full}
use kin.Transport.{
  dial_failed, Stream, Quic, prime, parse_certs, node_id_from_cert, verify_peer, open_dial_stream,
  dial, accept, write_framing_prime, consume_framing_prime,
}
use kin.Transport.Authentic.{Dialed, Accepted, ends-Authentic}

-- A stream that holds a prime and a byte.
abbrev fresh : Stream
fresh = record {
  incoming = record { pending = 0 ∷ 0 ∷ 0 ∷ 0 ∷ 5 ∷ []; ending = closed };
  outgoing = record { written = []; room = 100 };
}

abbrev certificate : Bytes → Option Bytes
certificate [] = none
certificate (b ∷ bs) = some (b ∷ bs)

abbrev reach : Bytes → (List Bytes → Bool) → Unit {0} → Option (List Bytes) × Unit {0}
reach a verify w = if verify (a ∷ []) then (some (a ∷ []), w) else (none, w)

reach-verified :
    (a : Bytes) (verify : List Bytes → Bool) (w w' : Unit {0}) (q : List Bytes)
    → reach a verify w ≡ (some q, w')
    → verify q ≡ true
reach-verified a verify w w' q e = ground arith

-- Every address shows a certificate of itself, that is its key and its id.
abbrev toy : Quic
toy = record {
  World = Unit {0};
  QConn = List Bytes;
  Cert = Bytes;
  Addr = Bytes;
  parse_certificate = certificate;
  ed25519_key = λ c. some c;
  sha256 = λ bs. bs;
  raw_certs = λ q. q;
  resolve = certificate;
  dial = reach;
  open_stream = λ q w. (some fresh, w);
  accept = λ w. (some ((9 ∷ []) ∷ []), w);
  accept_stream = λ q w. (some fresh, w);
  close_with_error = λ q w. w;
  dial-verified = reach-verified;
}

-- The certificate of another node fails the handshake.
other : dial toy (1 ∷ []) (2 ∷ []) tt ≡ (err dial_failed, tt)
unfolding dial verify_peer parse_certs node_id_from_cert open_dial_stream write_framing_prime eqb
    write
other = refl

same : dial toy (1 ∷ []) (1 ∷ []) tt ≡ (
  ok (record {
    q_conn = (1 ∷ []) ∷ [];
    stream = record fresh { outgoing = record { written = prime; room = 96 } };
    peer_node_id = 1 ∷ [];
  }),
  tt,
)
unfolding dial verify_peer parse_certs node_id_from_cert open_dial_stream write_framing_prime eqb
    write
same = refl

joined : accept toy tt ≡ (
  ok (record {
    q_conn = (9 ∷ []) ∷ [];
    stream = record fresh { incoming = record { pending = 5 ∷ []; ending = closed } };
    peer_node_id = 9 ∷ [];
  }),
  tt,
)
unfolding accept parse_certs node_id_from_cert consume_framing_prime read_full
joined = refl

ends-Authentic_example :
    Dialed toy (1 ∷ []) (dial toy (1 ∷ []) (1 ∷ []) tt) × Accepted toy (accept toy tt)
ends-Authentic_example = ends-Authentic toy (1 ∷ []) (1 ∷ []) tt
