-- ===== src/Ipc/Server.antt =====
-- internal/daemon/server.go: the requests of one connection of the daemon's local socket.
pub mod Answers
pub mod Ends
use kin.Base.{
  ℕ, zero, suc, ◌+◌, ◌≡◌, Bool, true, false, none, [], ◌∷◌, if◌then◌else◌, length, Bytes, eqb,
  Result, ok, err,
}
use kin.Base.Streams.{Reader, Writer}
use kin.Bolt.{Json}
use kin.Ipc.{Request, Response}
use kin.Ipc.Framing.{WriteError, JsonError, write_json, read_json}

-- "subscribe"
abbrev pub method_subscribe : Bytes
method_subscribe = b's' ∷ b'u' ∷ b'b' ∷ b's' ∷ b'c' ∷ b'r' ∷ b'i' ∷ b'b' ∷ b'e' ∷ []

abbrev pub zero_request : Request
zero_request = record { id = 0; method = []; params = [] }

-- A connection, as the daemon has it: what the client has sent, and what it was sent.
pub record Conn : Type 0 where
  pub incoming : Reader
  pub outgoing : Writer

-- How a turn of the loop of `handleConn` ends: it goes on, it returns, or it hands the connection
-- to `handleSubscribe` with the id of the request.
pub data Turn : Type 0 where
  next ended : Turn
  subscribing : ℕ → Turn

-- `S` is what the `RequestHandler` keeps, and `handle` its `Handle`.
module _ {S : Type 0} (requests : Json Request) (responses : Json Response)
    (handle : Request → S → Response × S) where
  abbrev pub after_write : S → Reader → Result WriteError (Unit {0}) × Writer → Turn × Conn × S
  after_write s r (ok u, w) = (next, record { incoming = r; outgoing = w }, s)
  after_write s r (err e, w) = (ended, record { incoming = r; outgoing = w }, s)

  pub answer : Request → Reader → Writer → S → Turn × Conn × S
  answer req r w s =
      let (resp, s') = handle req s in
      if eqb req.method method_subscribe
      then (subscribing req.id, record { incoming = r; outgoing = w }, s)
      else after_write s' r (write_json responses resp w)

  abbrev pub after_read : Writer → S → Result JsonError Request × Reader → Turn × Conn × S
  after_read w s (ok req, r) = answer req r w s
  after_read w s (err e, r) = (ended, record { incoming = r; outgoing = w }, s)

  -- A turn of the loop.
  pub take_turn : Conn → S → Turn × Conn × S
  unfolding answer
  take_turn c s = after_read c.outgoing s (read_json requests zero_request c.incoming)

  abbrev pub continue_with : (Conn → S → Turn × Conn × S) → Turn × Conn × S → Turn × Conn × S
  continue_with go (next, c, s) = go c s
  continue_with go (ended, c, s) = (ended, c, s)
  continue_with go (subscribing id, c, s) = (subscribing id, c, s)

  -- The loop, for at most so many turns.
  pub serve_turns : ℕ → Conn → S → Turn × Conn × S
  unfolding take_turn
  serve_turns zero c s = (next, c, s)
  serve_turns (suc fuel) c s = continue_with (serve_turns fuel) (take_turn c s)

  -- `handleConn` on a connection on which no more is sent than what is pending. A turn that goes on
  -- takes four bytes at least, so that the turns are enough.
  pub handle_conn : Conn → S → Turn × Conn × S
  unfolding serve_turns
  handle_conn c s = serve_turns (suc (length c.incoming.pending)) c s
