-- ===== src/Transport.antt =====
-- internal/transport: connections between peers that know each other by their ids.
pub mod Authentic
mod Tests
use kin.Base.{
  ℕ, ◌≡◌, Bool, true, false, not, Option, none, some, List, [], ◌∷◌, if◌then◌else◌, length, Bytes,
  eqb, Result, ok, err, ◌>>=◌,
}
use kin.Base.Streams.{Reader, Writer, read_full, write, ReadError}

pub data TransportError : Type 0 where
  resolve_failed dial_failed open_failed prime_failed : TransportError
  accept_failed stream_failed no_prime : TransportError
  no_certificates not_ed25519 parse_failed id_mismatch : TransportError

-- A stream of a connection: what comes in, and what goes out.
pub record Stream : Type 0 where
  pub incoming : Reader
  pub outgoing : Writer

-- crypto/x509 and crypto/tls and quic-go, as the package uses them. `raw_certs` are the certificates
-- that the other end has shown, of which it has proved to have the key. The handshake of `dial` calls
-- VerifyPeerCertificate on them, and fails if that does.
pub record Quic : Type 1 where
  pub World : Type 0
  pub QConn : Type 0
  pub Cert : Type 0
  pub Addr : Type 0
  pub parse_certificate : Bytes → Option Cert
  pub ed25519_key : Cert → Option Bytes
  pub sha256 : Bytes → Bytes
  pub raw_certs : QConn → List Bytes
  pub resolve : Bytes → Option Addr
  pub dial : Addr → (List Bytes → Bool) → World → Option QConn × World
  pub open_stream : QConn → World → Option Stream × World
  pub accept : World → Option QConn × World
  pub accept_stream : QConn → World → Option Stream × World
  pub close_with_error : QConn → World → World
  pub dial-verified :
      (a : Addr) (verify : List Bytes → Bool) (w w' : World) (q : QConn)
      → dial a verify w ≡ (some q, w')
      → verify (raw_certs q) ≡ true

-- The framing prime.
abbrev pub prime : Bytes
prime = 0 ∷ 0 ∷ 0 ∷ 0 ∷ []

-- `writeFramingPrime` and `consumeFramingPrime`
pub write_framing_prime : Writer → Bool × Writer
write_framing_prime w = write prime w

pub consume_framing_prime : Reader → Result ReadError Bytes × Reader
consume_framing_prime r = read_full 4 r

module _ (quic : Quic) where
  open quic use {
    World, QConn, Cert, parse_certificate, ed25519_key, sha256, raw_certs, close_with_error,
  }

  -- `Conn`
  pub record Conn : Type 0 where
    pub q_conn : QConn
    pub stream : Stream
    pub peer_node_id : Bytes

  abbrev pub parsed : Option Cert → Result TransportError Cert
  parsed none = err parse_failed
  parsed (some c) = ok c

  -- `parseCerts`
  pub parse_certs : List Bytes → Result TransportError (List Cert)
  parse_certs [] = ok []
  parse_certs (raw ∷ rest) = do
    c ← parsed (parse_certificate raw)
    cs ← parse_certs rest
    ok (c ∷ cs)

  abbrev pub key_id : Option Bytes → Result TransportError Bytes
  key_id none = err not_ed25519
  key_id (some key) = ok (sha256 key)

  -- `NodeIDFromCert`
  pub node_id_from_cert : List Cert → Result TransportError Bytes
  node_id_from_cert [] = err no_certificates
  node_id_from_cert (c ∷ cs) = key_id (ed25519_key c)

  -- `VerifyPeerCertificate` of `clientTLSConfig`
  pub verify_peer : Bytes → List Bytes → Result TransportError (Unit {0})
  unfolding parse_certs node_id_from_cert
  verify_peer expected raws = do
    certs ← parse_certs raws
    got ← node_id_from_cert certs
    if eqb got expected then ok tt else err id_mismatch

  abbrev pub succeeds : Result TransportError (Unit {0}) → Bool
  succeeds (ok u) = true
  succeeds (err e) = false

  abbrev pub primed : QConn → Stream → Bool × Writer → World → Result TransportError Stream × World
  primed q s (true, out) w = (ok (record s { outgoing = out }), w)
  primed q s (false, out) w = (err prime_failed, close_with_error q w)

  abbrev pub opened : QConn → Option Stream × World → Result TransportError Stream × World
  opened q (none, w) = (err open_failed, close_with_error q w)
  opened q (some s, w) = primed q s (write_framing_prime s.outgoing) w

  -- `openDialStream`
  pub open_dial_stream : QConn → World → Result TransportError Stream × World
  unfolding write_framing_prime
  open_dial_stream q w = opened q (quic.open_stream q w)

  abbrev pub with_stream :
      QConn → Bytes → Result TransportError Stream × World → Result TransportError Conn × World
  with_stream q id (ok s, w) = (ok (record { q_conn = q; stream = s; peer_node_id = id }), w)
  with_stream q id (err e, w) = (err e, w)

  abbrev pub dialed : Bytes → Option QConn × World → Result TransportError Conn × World
  dialed id (none, w) = (err dial_failed, w)
  dialed id (some q, w) = with_stream q id (open_dial_stream q w)

  abbrev pub dial_at : Bytes → Option quic.Addr → World → Result TransportError Conn × World
  dial_at id none w = (err resolve_failed, w)
  dial_at id (some a) w = dialed id (quic.dial a (λ raws. succeeds (verify_peer id raws)) w)

  -- `Listener.Dial`
  pub dial : Bytes → Bytes → World → Result TransportError Conn × World
  unfolding verify_peer open_dial_stream
  dial addr id w = dial_at id (quic.resolve addr) w

  abbrev pub named :
      QConn
      → Stream
      → Reader
      → Result TransportError Bytes
      → World
      → Result TransportError Conn × World
  named q s r (ok id) w =
      (ok (record { q_conn = q; stream = record s { incoming = r }; peer_node_id = id }), w)
  named q s r (err e) w = (err e, close_with_error q w)

  -- The certificates of a connection are those that TLS has parsed.
  abbrev pub consumed :
      QConn → Stream → Result ReadError Bytes × Reader → World → Result TransportError Conn × World
  consumed q s (err e, r) w = (err no_prime, close_with_error q w)
  consumed q s (ok bs, r) w =
      named q s r (do certs ← parse_certs (raw_certs q); node_id_from_cert certs) w

  abbrev pub streamed : QConn → Option Stream × World → Result TransportError Conn × World
  streamed q (none, w) = (err stream_failed, close_with_error q w)
  streamed q (some s, w) = consumed q s (consume_framing_prime s.incoming) w

  abbrev pub accepted : Option QConn × World → Result TransportError Conn × World
  accepted (none, w) = (err accept_failed, w)
  accepted (some q, w) = streamed q (quic.accept_stream q w)

  -- `Listener.Accept`
  pub accept : World → Result TransportError Conn × World
  unfolding consume_framing_prime parse_certs node_id_from_cert
  accept w = accepted (quic.accept w)
