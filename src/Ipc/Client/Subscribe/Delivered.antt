-- ===== src/Ipc/Client/Subscribe/Delivered.antt =====
-- A client that subscribes, and the events that the daemon broadcasts from then on.
use mathlib.Core.Path.{subst}
use kin.Base.{
  ℕ, ◌+◌, ◌-◌, ◌^◌, ◌%◌, ◌≤◌, ◌≡◌, refl, ap, ◌∙◌, true, false, none, List, [], ◌∷◌, ◌++◌, leb, ◌==◌,
  length, length-append, drop, drop-append, append_assoc, append-nil, arith, Bytes, eqb, ok,
}
use kin.Base.Streams.{Ending}
use kin.Bolt.{Json}
use kin.Ipc.{Request, Response, Event}
use kin.Ipc.Framing.{Fits, frame, write_json-frame, read_json-alone}
use kin.Ipc.Server.{method_subscribe, Conn, Turn, next, ended, subscribing, take_turn}
use kin.Ipc.Server.Answers.{take_turn-subscribing}
use kin.Ipc.Subscribers.{Subscriber, Server, set_sub, broadcast}
use kin.Ipc.Subscribers.Delivery.{
  has, IsNodup, takes, given, Fate, broadcast-delivered, broadcast-IsNodup,
}
use kin.Ipc.Client.{Client, zero_response, send_request, receive_response, call}
use kin.Ipc.Client.Calls.{at_rest, request_of}
use kin.Ipc.Client.Subscribe.{Feed, new_feed, listen, subscribe}
use kin.Ipc.Client.Subscribe.Heard.{AllFit, frames, Heard, listen-Heard}

has-append : (i : ℕ) (js : List ℕ) → has i (js ++ i ∷ []) ≡ true
unfolding has
has-append i [] = ground arith
has-append i (j ∷ js) = ground (arith, has-append i js)

has-append_other :
    (i j : ℕ) (js : List ℕ) → has j js ≡ false → (i == j) ≡ false → has j (js ++ i ∷ []) ≡ false
unfolding has
has-append_other i j [] h ne = ground arith
has-append_other i j (k ∷ ks) h ne = ground (arith, has-append_other i j ks)

append-IsNodup : (i : ℕ) (js : List ℕ) → has i js ≡ false → IsNodup js → IsNodup (js ++ i ∷ [])
unfolding has
append-IsNodup i [] h nodup = (refl, tt)
append-IsNodup i (j ∷ js) h (new, nodup) =
    (has-append_other i j js new (ground arith), append-IsNodup i js (ground arith) nodup)

module _ (events : Json Event) (responses : Json Response) where
  -- The broadcasts of some events, one behind the other.
  abbrev pub broadcast_each : List (Event × Bytes) → Server → Server
  broadcast_each [] s = s
  broadcast_each ((ev, body) ∷ ps) s = broadcast_each ps (broadcast events responses ev s)

  abbrev pub subscriber : Bytes → ℕ → Subscriber
  subscriber sent n = record {
    outgoing = record { written = sent; room = n };
    deadline_ok = true;
    closed = false;
  }

  broadcast-subscriber :
      (ev : Event) (body : Bytes) (i n : ℕ) (sent : Bytes) (s : Server) (fits : Fits events ev body)
      → IsNodup s.subscribers
      → has i s.subscribers ≡ true
      → s.subs i ≡ subscriber sent n
      → length (frame body) ≤ n
      → ((broadcast events responses ev s).subs i
          ≡ subscriber (sent ++ frame body) (n - length (frame body)))
        × (has i (broadcast events responses ev s).subscribers ≡ true)
  broadcast-subscriber ev body i n sent s fits nodup known sub room =
      let (fate, there) = broadcast-delivered events responses ev body fits i s nodup in
      let x' = (broadcast events responses ev s).subs i in
      let took : takes events responses ev body fits (s.subs i) ≡ true = rw sub (ground arith) in
      let fate' =
        subst
          (λ b.
            Fate events responses ev body fits b (takes events responses ev body fits (s.subs i))
              (s.subs i) x')
          known fate in
      let same : x' ≡ given events responses ev body fits (s.subs i) =
        subst (λ b. Fate events responses ev body fits true b (s.subs i) x') took fate' in
      (same ∙ ap (given events responses ev body fits) sub, there ∙ rw (known, took) refl)

  -- A subscriber with room for all of them has their messages.
  broadcast_each-written :
      (ps : List (Event × Bytes)) (i n : ℕ) (sent : Bytes) (s : Server)
      → AllFit events ps
      → IsNodup s.subscribers
      → has i s.subscribers ≡ true
      → s.subs i ≡ subscriber sent n
      → length (frames events ps) ≤ n
      → ((broadcast_each ps s).subs i).outgoing.written ≡ sent ++ frames events ps
  broadcast_each-written [] i n sent s h nodup known sub room = rw (sub, append-nil sent) refl
  broadcast_each-written ((ev, body) ∷ ps) i n sent s (fits, h) nodup known sub room =
      let size = length-append (frame body) (frames events ps) in
      let (sub', known') =
        broadcast-subscriber ev body i n sent s fits nodup known sub (omega arith) in
      broadcast_each-written ps i (n - length (frame body)) (sent ++ frame body) _ h
        (broadcast-IsNodup events responses ev body fits s nodup) known' sub' (omega arith)
      ∙ append_assoc sent (frame body) (frames events ps)

  -- What a request for a subscription is answered.
  abbrev pub welcome : ℕ → Response
  welcome id = record { id = id; error = none; raw_data = [] }

  module _ (requests : Json Request) (handle : Request → Server → Response × Server) (i m : ℕ) where
    abbrev pub handed : Client → Turn × Conn × Server → Client × Server
    handed c (subscribing id, conn, s) =
        let s' = (kin.Ipc.Subscribers.subscribe events responses id i conn.outgoing s).1 in
        (
          record c {
            incoming = record c.incoming {
              pending = c.incoming.pending ++ (s'.subs i).outgoing.written;
            };
            outgoing = record c.outgoing { written = conn.incoming.pending };
          },
          s',
        )
    handed c (next, conn, s) = (c, s)
    handed c (ended, conn, s) = (c, s)

    -- The daemon's end of a connection that subscribes: handleConn's turn on what the client has
    -- written, and handleSubscribe, on a connection that takes `m` bytes, as subscriber `i`.
    abbrev pub daemon_subscribes : Client → Server → Client × Server
    daemon_subscribes c s = handed c (
        take_turn requests responses handle
          (record {
            incoming = record { pending = c.outgoing.written; ending = c.incoming.ending };
            outgoing = record { written = []; room = m };
          })
          s)

    -- The server with the new subscriber.
    abbrev pub with_subscriber : Bytes → Server → Server
    with_subscriber sent s = record s {
      subscribers = s.subscribers ++ i ∷ [];
      subs = set_sub i (subscriber sent (m - length sent)) s.subs;
    }

    subscribe_lem :
        (id n : ℕ) (e : Ending) (body ack : Bytes) (s : Server)
        → Fits requests (request_of id method_subscribe []) body
        → eqb (requests.repair (request_of id method_subscribe [])).method method_subscribe ≡ true
        → Fits responses (welcome (requests.repair (request_of id method_subscribe [])).id) ack
        → (responses.repair
            (welcome (requests.repair (request_of id method_subscribe [])).id)).error
          ≡ none
        → length (frame body) ≤ n
        → length (frame ack) ≤ m
        → subscribe requests responses daemon_subscribes (at_rest id n e) s ≡ (
          ok new_feed,
          at_rest ((id + 1) % 2 ^ 64) (n - length (frame body)) e,
          with_subscriber (frame ack) s,
        )
    unfolding subscribe call send_request receive_response kin.Ipc.Subscribers.subscribe set_sub
    subscribe_lem id n e body ack s q asks a fine room room' =
        let req = request_of id method_subscribe [] in
        let rid = (requests.repair req).id in
        let turn = take_turn-subscribing requests responses handle req body e m s q asks in
        let here : (i == i) ≡ true = ground arith in
        rw
          (
            write_json-frame requests req body [] n q room,
            turn,
            write_json-frame responses (welcome rid) ack [] m a room',
            here,
            read_json-alone responses (welcome rid) zero_response ack e a,
            fine,
          )
          refl

    set_sub-here : (x : Subscriber) (f : ℕ → Subscriber) → set_sub i x f i ≡ x
    unfolding set_sub
    set_sub-here x f = ground arith

    -- What is written to the subscriber behind the acknowledgement.
    abbrev pub behind : Bytes → Server → Bytes
    behind ack s = drop (length (frame ack)) (s.subs i).outgoing.written

    behind-frames :
        (ps : List (Event × Bytes)) (ack : Bytes) (s : Server)
        → AllFit events ps
        → IsNodup s.subscribers
        → has i s.subscribers ≡ false
        → length (frame ack) + length (frames events ps) ≤ m
        → behind ack (broadcast_each ps (with_subscriber (frame ack) s)) ≡ frames events ps
    behind-frames ps ack s h nodup new room =
        let written =
          broadcast_each-written ps i (m - length (frame ack)) (frame ack)
            (with_subscriber (frame ack) s) h (append-IsNodup i s.subscribers new nodup)
            (has-append i s.subscribers)
            (set_sub-here (subscriber (frame ack) (m - length (frame ack))) s.subs) (omega arith) in
        rw written (drop-append (length (frame ack)) (frame ack) (frames events ps) refl)

    -- A client at rest subscribes, where JSON keeps the method of its request and that the answer
    -- has no error, on a connection that takes the request, the answer and all that follows, as a
    -- subscriber that the server does not have yet, and then the server broadcasts events, each of
    -- which fits into a message. Subscribe gives a channel, and whatever the program takes off it
    -- meanwhile, at the connection's end the channel is closed, and what it has given and still holds
    -- are the events, as JSON keeps them, in their order: all of them, where they are 64 at most, and
    -- else a part.
    pub subscribe-broadcasts :
        (id n : ℕ) (e : Ending) (body ack : Bytes) (s : Server) (ps : List (Event × Bytes))
        (take_off : ℕ → ℕ)
        → Fits requests (request_of id method_subscribe []) body
        → eqb (requests.repair (request_of id method_subscribe [])).method method_subscribe ≡ true
        → Fits responses (welcome (requests.repair (request_of id method_subscribe [])).id) ack
        → (responses.repair
            (welcome (requests.repair (request_of id method_subscribe [])).id)).error
          ≡ none
        → length (frame body) ≤ n
        → length (frame ack) + length (frames events ps) ≤ m
        → IsNodup s.subscribers
        → has i s.subscribers ≡ false
        → AllFit events ps
        → (c : Client) × (s' : Server) × (f : Feed) × (subscribe requests responses
              daemon_subscribes
              (at_rest id n e)
              s
            ≡ (ok new_feed, c, s'))
          × ((listen events take_off
                (record { pending = behind ack (broadcast_each ps s'); ending = e })
                new_feed).0
              ≡ f)
          × (f.closed ≡ true)
          × Heard events (leb (length ps) 64) [] ps f
    subscribe-broadcasts id n e body ack s ps take_off q asks a fine room room' nodup new h =
        let (heard, shut) = listen-Heard events ps take_off e h in
        (
          at_rest ((id + 1) % 2 ^ 64) (n - length (frame body)) e,
          with_subscriber (frame ack) s,
          (listen events take_off (record { pending = frames events ps; ending = e }) new_feed).0,
          subscribe_lem id n e body ack s q asks a fine room (omega arith),
          ap (λ p. (listen events take_off (record { pending = p; ending = e }) new_feed).0)
              (behind-frames ps ack s h nodup new room'),
          shut,
          heard,
        )
