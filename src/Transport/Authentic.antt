-- ===== src/Transport/Authentic.antt =====
-- Both ends of a connection have the id of the key behind the certificate that the other has shown.
use kin.Base.{
  ◌≡◌, refl, ap, ◌∙◌, Bool, true, false, Option, none, some, List, [], ◌∷◌, Bytes, eqb, eqb_iff,
  Result, ok, err, ◌>>=◌, >>=-eq-ok, length, ◌++◌, take-append-drop, length-take, ok_injective,
  Bool-cases, inl, inr, arith,
}
use kin.Base.Streams.{Reader, Writer, write, read_full, ReadError}
use kin.Transport.{
  TransportError, Stream, Quic, prime, write_framing_prime, consume_framing_prime, Conn, parsed,
  parse_certs, key_id, node_id_from_cert, verify_peer, succeeds, primed, opened, open_dial_stream,
  with_stream, dialed, dial_at, dial, named, consumed, streamed, accepted, accept,
}

module _ (quic : Quic) where
  open quic use {
    World, QConn, Cert, parse_certificate, ed25519_key, sha256, raw_certs, dial-verified,
  }

  -- The first certificate of the list holds an Ed25519 key with this hash.
  abbrev pub Shows : List Bytes → Bytes → Type 0
  Shows raws id =
      (raw : Bytes) × (rest : List Bytes) × (c : Cert) × (key : Bytes) × (raws ≡ raw ∷ rest)
      × (parse_certificate raw ≡ some c)
      × (ed25519_key c ≡ some key)
      × (sha256 key ≡ id)

  parsed-ok : (r : Option Cert) (c : Cert) → parsed quic r ≡ ok c → r ≡ some c
  parsed-ok none c e = cc
  parsed-ok (some d) c e = cc

  key_id-ok :
      (r : Option Bytes) (id : Bytes)
      → key_id quic r ≡ ok id
      → (key : Bytes) × (r ≡ some key) × (sha256 key ≡ id)
  key_id-ok none id e = cc
  key_id-ok (some key) id e = (key, refl, ok_injective refl e)

  named-Shows :
      (raws : List Bytes) (certs : List Cert) (id : Bytes)
      → parse_certs quic raws ≡ ok certs
      → node_id_from_cert quic certs ≡ ok id
      → Shows raws id
  unfolding parse_certs node_id_from_cert
  named-Shows [] [] id p e = cc
  named-Shows [] (d ∷ ds) id p e = cc
  named-Shows (raw ∷ rest) certs id p e =
      let (c, p1, p2) = >>=-eq-ok (parsed quic (parse_certificate raw)) _ p in
      let (cs, p3, p4) = >>=-eq-ok (parse_certs quic rest) _ p2 in
      let same : node_id_from_cert quic (c ∷ cs) ≡ ok id =
        ap (node_id_from_cert quic) (ok_injective refl p4) ∙ e in
      let (key, k1, k2) = key_id-ok (ed25519_key c) id same in
      (raw, rest, c, key, refl, parsed-ok (parse_certificate raw) c p1, k1, k2)

  succeeds-ok : (r : Result TransportError (Unit {0})) → succeeds quic r ≡ true → r ≡ ok tt
  succeeds-ok (ok u) h = refl
  succeeds-ok (err e) h = cc

  verify_peer-Shows :
      (id : Bytes) (raws : List Bytes)
      → succeeds quic (verify_peer quic id raws) ≡ true
      → Shows raws id
  unfolding verify_peer
  verify_peer-Shows id raws h =
      let (certs, p, rest) = >>=-eq-ok (parse_certs quic raws) _ (succeeds-ok _ h) in
      let (got, n, last) = >>=-eq-ok (node_id_from_cert quic certs) _ rest in
      elim (Bool-cases (eqb got id)) [
        | inl e ↦ named-Shows raws certs id p (n ∙ ap ok ((eqb_iff got id).0 e))
        | inr e ↦ cc
      ]

  -- A connection that `Dial` returns for `id`: it bears this id, its other end shows it, and its
  -- stream is one that was opened on it, with the prime written to it.
  abbrev pub Opened : QConn → Stream → Type 0
  Opened q s =
      (w w' : World) × (s' : Stream) × (quic.open_stream q w ≡ (some s', w'))
      × (s.outgoing.written ≡ s'.outgoing.written ++ prime)

  abbrev pub Dialed : Bytes → Result TransportError (Conn quic) × World → Type 0
  Dialed id (ok c, w) =
      (c.peer_node_id ≡ id) × Shows (raw_certs c.q_conn) id × Opened c.q_conn c.stream
  Dialed id (err e, w) = Unit {0}

  -- A connection that `Accept` returns: its other end shows the id that it bears, and its stream is
  -- one that was accepted on it, less four bytes.
  abbrev pub Joined : QConn → Stream → Type 0
  Joined q s =
      (w w' : World) × (s' : Stream) × (bs : Bytes) × (quic.accept_stream q w ≡ (some s', w'))
      × (length bs ≡ 4)
      × (s'.incoming.pending ≡ bs ++ s.incoming.pending)

  abbrev pub Accepted : Result TransportError (Conn quic) × World → Type 0
  Accepted (ok c, w) = Shows (raw_certs c.q_conn) c.peer_node_id × Joined c.q_conn c.stream
  Accepted (err e, w) = Unit {0}

  write_framing_prime-written :
      (out o : Writer) → write_framing_prime out ≡ (true, o) → o.written ≡ out.written ++ prime
  unfolding write_framing_prime write
  write_framing_prime-written out o e = ground arith

  consume_framing_prime-pending :
      (r r' : Reader) (bs : Bytes)
      → consume_framing_prime r ≡ (ok bs, r')
      → (length bs ≡ 4) × (r.pending ≡ bs ++ r'.pending)
  unfolding consume_framing_prime read_full
  consume_framing_prime-pending r r' bs e =
      ground (arith, length-take 4 r.pending, take-append-drop 4 r.pending)

  primed-Dialed :
      (id : Bytes) (q : QConn) (s : Stream) (r : Bool × Writer) (w v v' : World)
      → quic.open_stream q v ≡ (some s, v')
      → write_framing_prime s.outgoing ≡ r
      → Shows (raw_certs q) id
      → Dialed id (with_stream quic q id (primed quic q s r w))
  primed-Dialed id q s (true, o) w v v' f e h =
      (refl, h, (v, v', s, f, write_framing_prime-written s.outgoing o e))
  primed-Dialed id q s (false, o) w v v' f e h = tt

  opened-Dialed :
      (id : Bytes) (q : QConn) (r : Option Stream × World) (v : World)
      → quic.open_stream q v ≡ r
      → Shows (raw_certs q) id
      → Dialed id (with_stream quic q id (opened quic q r))
  opened-Dialed id q (none, w) v f h = tt
  opened-Dialed id q (some s, w) v f h = primed-Dialed id q s _ w v w f refl h

  dialed-Dialed :
      (id : Bytes) (r : Option QConn × World)
      → ((q : QConn) (w : World) → r ≡ (some q, w) → Shows (raw_certs q) id)
      → Dialed id (dialed quic id r)
  unfolding open_dial_stream
  dialed-Dialed id (none, w) h = tt
  dialed-Dialed id (some q, w) h = opened-Dialed id q (quic.open_stream q w) w refl (h q w refl)

  dial_at-Dialed : (id : Bytes) (a : Option quic.Addr) (w : World) → Dialed id (dial_at quic id a w)
  dial_at-Dialed id none w = tt
  dial_at-Dialed id (some a) w =
      dialed-Dialed id _ (λ q w' e. verify_peer-Shows id (raw_certs q) (dial-verified a _ w w' q e))

  named-Accepted :
      (q : QConn) (s : Stream) (r : Reader) (n : Result TransportError Bytes) (w : World)
      → (do certs ← parse_certs quic (raw_certs q); node_id_from_cert quic certs) ≡ n
      → Joined q (record s { incoming = r })
      → Accepted (named quic q s r n w)
  named-Accepted q s r (ok id) w n h =
      let (certs, p, k) = >>=-eq-ok (parse_certs quic (raw_certs q)) _ n in
      (named-Shows (raw_certs q) certs id p k, h)
  named-Accepted q s r (err x) w n h = tt

  consumed-Accepted :
      (q : QConn) (s : Stream) (o : Result ReadError Bytes × Reader) (w v v' : World)
      → quic.accept_stream q v ≡ (some s, v')
      → consume_framing_prime s.incoming ≡ o
      → Accepted (consumed quic q s o w)
  consumed-Accepted q s (err x, r') w v v' f e = tt
  consumed-Accepted q s (ok bs, r') w v v' f e =
      let (size, split) = consume_framing_prime-pending s.incoming r' bs e in
      named-Accepted q s r' _ w refl (v, v', s, bs, f, size, split)

  streamed-Accepted :
      (q : QConn) (r : Option Stream × World) (v : World)
      → quic.accept_stream q v ≡ r
      → Accepted (streamed quic q r)
  streamed-Accepted q (none, w) v f = tt
  streamed-Accepted q (some s, w) v f = consumed-Accepted q s _ w v w f refl

  accepted-Accepted : (r : Option QConn × World) → Accepted (accepted quic r)
  accepted-Accepted (none, w) = tt
  accepted-Accepted (some q, w) = streamed-Accepted q (quic.accept_stream q w) w refl

  -- A connection that Dial returns for an id bears this id, its other end has shown a certificate
  -- with an Ed25519 key whose hash is the id, and its stream was opened on the connection, with
  -- the prime written to it. A connection that Accept returns bears the hash of the Ed25519 key in the
  -- certificate that its other end has shown, and its stream was accepted on it, less four bytes.
  pub ends-Authentic :
      (addr id : Bytes) (w : World) → Dialed id (dial quic addr id w) × Accepted (accept quic w)
  unfolding dial accept
  ends-Authentic addr id w =
      (dial_at-Dialed id (quic.resolve addr) w, accepted-Accepted (quic.accept w))
