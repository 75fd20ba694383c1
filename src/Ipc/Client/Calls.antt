-- ===== src/Ipc/Client/Calls.antt =====
-- A call is answered by what the daemon's handler makes of it.
use mathlib.Core.Path.{subst}
use kin.Base.{
  ℕ, ◌+◌, ◌-◌, ◌^◌, ◌%◌, ◌≤◌, ◌≡◌, refl, false, some, [], ◌++◌, append-nil, length, Bytes, eqb, ok,
}
use kin.Base.Streams.{Ending}
use kin.Bolt.{Json}
use kin.Ipc.{Request, Response}
use kin.Ipc.Framing.{Fits, frame, write_json-frame, read_json-alone}
use kin.Ipc.Server.{method_subscribe, next, take_turn}
use kin.Ipc.Server.Answers.{take_turn-answered}
use kin.Ipc.Client.{Client, zero_response, send_request, receive_response, call}

-- A client with an open connection on which nothing is under way, that can write `n` bytes more.
abbrev pub at_rest : ℕ → ℕ → Ending → Client
at_rest id n e = record {
  next_id = id;
  incoming = record { pending = []; ending = e };
  outgoing = record { written = []; room = n };
}

-- The request of a call.
abbrev pub request_of : ℕ → Bytes → Bytes → Request
request_of id method params = record { id = (id + 1) % 2 ^ 64; method = method; params = params }

module _ {S : Type 0} (requests : Json Request) (responses : Json Response)
    (handle : Request → S → Response × S) where
  -- The daemon's end of the connection: a turn of handleConn on what the client has written, with
  -- room for `m` bytes of an answer. What it leaves stays to be read.
  abbrev pub daemon_turn : ℕ → Client → S → Client × S
  daemon_turn m c s =
      let (t, conn, s') =
        take_turn requests responses handle
          (record {
            incoming = record { pending = c.outgoing.written; ending = c.incoming.ending };
            outgoing = record { written = []; room = m };
          })
          s in
      (
        record c {
          incoming = record c.incoming { pending = c.incoming.pending ++ conn.outgoing.written };
          outgoing = record c.outgoing { written = conn.incoming.pending };
        },
        s',
      )

  take_turn-alone :
      (req : Request) (body reply : Bytes) (e : Ending) (m : ℕ) (s : S)
      → Fits requests req body
      → eqb (requests.repair req).method method_subscribe ≡ false
      → Fits responses (handle (requests.repair req) s).0 reply
      → length (frame reply) ≤ m
      → take_turn requests responses handle
          (record {
            incoming = record { pending = frame body; ending = e };
            outgoing = record { written = []; room = m };
          })
          s
        ≡ (
          next,
          record {
            incoming = record { pending = []; ending = e };
            outgoing = record { written = frame reply; room = m - length (frame reply) };
          },
          (handle (requests.repair req) s).1,
        )
  take_turn-alone req body reply e m s q other a room =
      subst
        (λ p.
          take_turn requests responses handle
            (record {
              incoming = record { pending = p; ending = e };
              outgoing = record { written = []; room = m };
            })
            s
          ≡ (
            next,
            record {
              incoming = record { pending = []; ending = e };
              outgoing = record { written = frame reply; room = m - length (frame reply) };
            },
            (handle (requests.repair req) s).1,
          ))
        (append-nil (frame body))
        (take_turn-answered requests responses handle req body reply [] [] e m s q other a room)

  -- A call from a client at rest, whose request and whose response fit into messages and are taken
  -- by the connection, gives the handler's response to the request, both as JSON keeps them; the
  -- handler's state is that of this one request, and the client is at rest again, with its id used.
  pub call-answered :
      (method params body reply : Bytes) (id n m : ℕ) (e : Ending) (s : S)
      → Fits requests (request_of id method params) body
      → eqb (requests.repair (request_of id method params)).method method_subscribe ≡ false
      → Fits responses (handle (requests.repair (request_of id method params)) s).0 reply
      → length (frame body) ≤ n
      → length (frame reply) ≤ m
      → call requests responses (daemon_turn m) method (some params) (at_rest id n e) s ≡ (
        ok (responses.repair (handle (requests.repair (request_of id method params)) s).0),
        at_rest ((id + 1) % 2 ^ 64) (n - length (frame body)) e,
        (handle (requests.repair (request_of id method params)) s).1,
      )
  unfolding call send_request receive_response
  call-answered method params body reply id n m e s q other a room room' =
      let req = request_of id method params in
      rw
        (
          write_json-frame requests req body [] n q room,
          take_turn-alone req body reply e m s q other a room',
          read_json-alone responses (handle (requests.repair req) s).0 zero_response reply e a,
        )
        refl
