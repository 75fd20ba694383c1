-- ===== src/Ipc/Server/Answers.antt =====
-- The requests of a connection are answered in order, and the loop ends.
use kin.Base.{
  ℕ, zero, suc, ◌+◌, ◌-◌, ◌≤◌, ◌<◌, ◌≡◌, ◌≢◌, refl, sym, ap, ◌∙◌, Bool, true, false, Option, some,
  none, List, [], ◌∷◌, ◌++◌, append-nil, append_assoc, arith, if◌then◌else◌, length, length-append,
  Bytes, eqb, Result, ok, err, Bool-cases, Option-cases, inl, inr,
}
use kin.Base.Streams.{closed, Ending, Reader, Writer, read_full, Consumes, read_full-Consumes}
use kin.Bolt.{Json}
use kin.Ipc.{Request, Response}
use kin.Ipc.Framing.{
  read_json, Fits, frame, length-frame, write_json-frame, read_json-frame, read_json-alone,
}
use kin.Ipc.Server.{
  method_subscribe, zero_request, Conn, next, ended, subscribing, answer, take_turn, serve_turns,
  handle_conn,
}

-- Bodies as they stand on a connection, each in its frame.
unfoldable pub frames : List Bytes → Bytes
frames [] = []
frames (b ∷ bs) = frame b ++ frames bs

-- A connection whose client sends these bytes and then closes its end.
abbrev pub open_conn : Bytes → Writer → Conn
open_conn pending w = record {
  incoming = record { pending = pending; ending = closed };
  outgoing = w;
}

-- What has been written, and the room that is left.
abbrev pub wrote : Bytes → ℕ → Bytes → Writer
wrote sent n a = record { written = sent ++ a; room = n - length a }

sub_zero : (n : ℕ) → n - 0 ≡ n
sub_zero n = omega arith

sub_sub : (n a b : ℕ) → n - a - b ≡ n - (a + b)
sub_sub n a b = omega arith

wrote-nil : (sent : Bytes) (n : ℕ) → wrote sent n [] ≡ record { written = sent; room = n }
wrote-nil sent n = rw (append-nil sent, sub_zero n) refl

wrote-wrote :
    (sent a b : Bytes) (n : ℕ) → wrote (sent ++ a) (n - length a) b ≡ wrote sent n (a ++ b)
wrote-wrote sent a b n =
    rw (append_assoc sent a b, length-append a b, sub_sub n (length a) (length b)) refl

module _ {S : Type 0} (requests : Json Request) (responses : Json Response)
    (handle : Request → S → Response × S) where
  -- Requests with the bodies they are sent as, and the bodies of the handler's responses to them, to
  -- each in the state that the one before has left.
  pub data Answered : S → List Bytes → List Bytes → S → Type 0 where
    none_left : {s : S} → Answered s [] [] s
    one_more :
        {s s' : S} {req : Request} {body reply : Bytes} {bodies replies : List Bytes}
        → Fits requests req body
        → eqb (requests.repair req).method method_subscribe ≡ false
        → Fits responses (handle (requests.repair req) s).0 reply
        → Answered (handle (requests.repair req) s).1 bodies replies s'
        → Answered s (body ∷ bodies) (reply ∷ replies) s'

  -- A turn on a request that fits answers it.
  pub take_turn-answered :
      (req : Request) (body reply rest sent : Bytes) (e : kin.Base.Streams.Ending) (n : ℕ) (s : S)
      → Fits requests req body
      → eqb (requests.repair req).method method_subscribe ≡ false
      → Fits responses (handle (requests.repair req) s).0 reply
      → length (frame reply) ≤ n
      → take_turn requests responses handle
          (record {
            incoming = record { pending = frame body ++ rest; ending = e };
            outgoing = record { written = sent; room = n };
          })
          s
        ≡ (
          next,
          record {
            incoming = record { pending = rest; ending = e };
            outgoing = record { written = sent ++ frame reply; room = n - length (frame reply) };
          },
          (handle (requests.repair req) s).1,
        )
  unfolding take_turn answer
  take_turn-answered req body reply rest sent e n s q m a room =
      rw
        (
          read_json-frame requests req zero_request body rest e q,
          m,
          write_json-frame responses (handle (requests.repair req) s).0 reply sent n a room,
        )
        refl

  take_turn-end :
      (w : Writer) (s : S)
      → take_turn requests responses handle
          (record { incoming = record { pending = []; ending = closed }; outgoing = w })
          s
        ≡ (ended, record { incoming = record { pending = []; ending = closed }; outgoing = w }, s)
  unfolding take_turn read_json read_full
  take_turn-end w s = refl

  turns-Answered :
      (k n : ℕ) (sent : Bytes) (s s' : S) (bodies replies : List Bytes)
      → Answered s bodies replies s'
      → length bodies < k
      → length (frames replies) ≤ n
      → serve_turns requests responses handle k
          (open_conn (frames bodies) (record { written = sent; room = n }))
          s
        ≡ (ended, open_conn [] (wrote sent n (frames replies)), s')
  unfolding serve_turns frames
  turns-Answered zero n sent s s' bodies replies a k room = absurd (omega arith)
  turns-Answered (suc k) n sent s s' bodies replies none_left h room =
      rw (wrote-nil sent n, take_turn-end (record { written = sent; room = n }) s) refl
  turns-Answered (suc k) n sent s s' bodies replies
        (one_more {req = req} {body = body} {reply = reply} {bodies = bodies'} {replies = replies'}
          q m r a)
        h room =
      let more = length-append (frame reply) (frames replies') in
      rw (take_turn-answered req body reply (frames bodies') sent closed n s q m r (omega arith)) (
        turns-Answered k (n - length (frame reply)) (sent ++ frame reply)
          (handle (requests.repair req) s).1 s' bodies' replies' a (omega arith) (omega arith)
        ∙ ap (λ w. (ended, open_conn [] w, s'))
            (wrote-wrote sent (frame reply) (frames replies') n))

  length-frames : (bodies : List Bytes) → length bodies ≤ length (frames bodies)
  unfolding frames
  length-frames [] = omega arith
  length-frames (b ∷ bs) =
      omega (arith, length-append (frame b) (frames bs), length-frame b, length-frames bs)

  -- A client sends requests, none of them a subscription, and closes its end; every request and
  -- every response fits into a message, and the connection takes the responses. Then the loop of
  -- handleConn answers all of them, in order, each with what the handler makes of it in the state
  -- that the one before has left, sends nothing else, and returns.
  pub handle_conn-Answered :
      (n : ℕ) (sent : Bytes) (s s' : S) (bodies replies : List Bytes)
      → Answered s bodies replies s'
      → length (frames replies) ≤ n
      → handle_conn requests responses handle
          (open_conn (frames bodies) (record { written = sent; room = n }))
          s
        ≡ (ended, open_conn [] (wrote sent n (frames replies)), s')
  unfolding handle_conn
  handle_conn-Answered n sent s s' bodies replies a room =
      turns-Answered (suc (length (frames bodies))) n sent s s' bodies replies a
        (omega (arith, length-frames bodies)) room

  -- A request for a subscription hands the connection on.
  pub take_turn-subscribing :
      (req : Request) (body : Bytes) (e : Ending) (m : ℕ) (s : S)
      → Fits requests req body
      → eqb (requests.repair req).method method_subscribe ≡ true
      → take_turn requests responses handle
          (record {
            incoming = record { pending = frame body; ending = e };
            outgoing = record { written = []; room = m };
          })
          s
        ≡ (
          subscribing (requests.repair req).id,
          record {
            incoming = record { pending = []; ending = e };
            outgoing = record { written = []; room = m };
          },
          s,
        )
  unfolding take_turn answer
  take_turn-subscribing req body e m s q asks =
      rw (read_json-alone requests req zero_request body e q, asks) refl
