-- ===== src/Ipc/Server/Ends.antt =====
-- The loop of handleConn ends, whatever the client sends.
use kin.Base.{
  ℕ, zero, suc, ◌≤◌, ◌<◌, ◌≢◌, ◌==◌, ltb, leb, arith, length, length-drop, Option, none, some,
  Bytes, eqb, Result, ok, err, Bool-cases, inl, inr,
}
use kin.Base.BigEndian.{be_value}
use kin.Base.Streams.{Reader, ReadError, Writer, read_full}
use kin.Bolt.{Json}
use kin.Ipc.{Request, Response}
use kin.Ipc.Framing.{
  max_ipc_msg_size, WriteError, JsonError, write_json, read_json, parsed, read_body, read_sized,
  after_header,
}
use kin.Ipc.Server.{
  method_subscribe, zero_request, Conn, Turn, next, ended, subscribing, after_write, answer,
  after_read, take_turn, continue_with, serve_turns, handle_conn,
}

-- Never more is pending than before, and less if the read succeeds.
abbrev Shrinks : {E A : Type 0} → Reader → Result E A × Reader → Type 0
Shrinks r (ok a, r') = length r'.pending < length r.pending
Shrinks r (err e, r') = length r'.pending ≤ length r.pending

read_full-le : (n : ℕ) (r : Reader) → length (read_full n r).1.pending ≤ length r.pending
unfolding read_full
read_full-le n r = ground (arith, length-drop n r.pending)

read_full-Shrinks : (n : ℕ) (r : Reader) → 1 ≤ n → Shrinks r (read_full n r)
unfolding read_full
read_full-Shrinks n r h = elim (Bool-cases (leb n (length r.pending))) [
  | inl e ↦ rw e (ground (arith, length-drop n r.pending))
  | inr e ↦ rw e (ground arith)
]

module _ {A : Type 0} (json : Json A) where
  open json use {unmarshal}

  parsed-Shrinks :
      (r r' : Reader) (o : Option A)
      → length r'.pending < length r.pending
      → Shrinks r (parsed json o, r')
  parsed-Shrinks r r' none h = omega arith
  parsed-Shrinks r r' (some v) h = h

  read_body-Shrinks :
      (r r' : Reader) (out : Result ReadError Bytes × Reader)
      → length r'.pending < length r.pending
      → length out.1.pending ≤ length r'.pending
      → Shrinks r (read_body json out)
  read_body-Shrinks r r' (ok body, r'') h k = parsed-Shrinks r r'' (unmarshal body) (omega arith)
  read_body-Shrinks r r' (err e, r'') h k = omega arith

  read_sized-Shrinks :
      (v : A) (size : ℕ) (r r' : Reader)
      → length r'.pending < length r.pending
      → Shrinks r (read_sized json v size r')
  read_sized-Shrinks v size r r' h = elim (Bool-cases (size == 0)) [
    | inl e ↦ rw e h
    | inr e ↦ elim (Bool-cases (ltb max_ipc_msg_size size)) [
      | inl big ↦ rw (e, big) (omega arith)
      | inr fits ↦
          rw (e, fits) (read_body-Shrinks r r' (read_full size r') h (read_full-le size r'))
    ]
  ]

  after_header-Shrinks :
      (v : A) (r : Reader) (out : Result ReadError Bytes × Reader)
      → Shrinks r out
      → Shrinks r (after_header json v out)
  after_header-Shrinks v r (ok head, r') h = read_sized-Shrinks v (be_value head) r r' h
  after_header-Shrinks v r (err e, r') h = h

  pub read_json-Shrinks : (v : A) (r : Reader) → Shrinks r (read_json json v r)
  unfolding read_json
  read_json-Shrinks v r =
      after_header-Shrinks v r (read_full 4 r) (read_full-Shrinks 4 r (omega arith))

module _ {S : Type 0} (requests : Json Request) (responses : Json Response)
    (handle : Request → S → Response × S) where
  -- A turn that goes on has taken something off the connection.
  abbrev Advances : Conn → Turn × Conn × S → Type 0
  Advances c (next, c', s) = length c'.incoming.pending < length c.incoming.pending
  Advances c (ended, c', s) = Unit {0}
  Advances c (subscribing id, c', s) = Unit {0}

  after_write-Advances :
      (c : Conn) (r : Reader) (s : S) (out : Result WriteError (Unit {0}) × Writer)
      → length r.pending < length c.incoming.pending
      → Advances c (after_write requests responses handle s r out)
  after_write-Advances c r s (ok u, w) h = h
  after_write-Advances c r s (err e, w) h = tt

  after_read-Advances :
      (c : Conn) (s : S) (out : Result JsonError Request × Reader)
      → Shrinks c.incoming out
      → Advances c (after_read requests responses handle c.outgoing s out)
  unfolding answer
  after_read-Advances c s (ok req, r) h = elim (Bool-cases (eqb req.method method_subscribe)) [
    | inl sub ↦ rw sub tt
    | inr other ↦ rw other (
        after_write-Advances c r (handle req s).1 (write_json responses (handle req s).0 c.outgoing)
          h)
  ]
  after_read-Advances c s (err e, r) h = tt

  take_turn-Advances : (c : Conn) (s : S) → Advances c (take_turn requests responses handle c s)
  unfolding take_turn
  take_turn-Advances c s =
      after_read-Advances c s (read_json requests zero_request c.incoming)
        (read_json-Shrinks requests zero_request c.incoming)

  continue_with-ended :
      (k : ℕ) (c : Conn) (out : Turn × Conn × S)
      → length c.incoming.pending < suc k
      → Advances c out
      → ((c' : Conn) (s' : S)
          → length c'.incoming.pending < k
          → (serve_turns requests responses handle k c' s').0 ≢ next)
      → (continue_with requests responses handle (serve_turns requests responses handle k) out).0
        ≢ next
  continue_with-ended k c (next, c', s') h a go e = go c' s' (omega arith) e
  continue_with-ended k c (ended, c', s') h a go e = cc
  continue_with-ended k c (subscribing id, c', s') h a go e = cc

  serve_turns-ended :
      (k : ℕ) (c : Conn) (s : S)
      → length c.incoming.pending < k
      → (serve_turns requests responses handle k c s).0 ≢ next
  unfolding serve_turns
  serve_turns-ended zero c s h = absurd (omega arith)
  serve_turns-ended (suc k) c s h =
      continue_with-ended k c (take_turn requests responses handle c s) h (take_turn-Advances c s)
        (serve_turns-ended k)

  -- Whatever bytes the client sends, and however its end breaks: the loop of handleConn returns, or
  -- hands the connection to handleSubscribe.
  pub handle_conn-ended : (c : Conn) (s : S) → (handle_conn requests responses handle c s).0 ≢ next
  unfolding handle_conn
  handle_conn-ended c s = serve_turns-ended (suc (length c.incoming.pending)) c s (omega arith)
