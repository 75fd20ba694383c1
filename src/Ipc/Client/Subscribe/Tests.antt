-- ===== src/Ipc/Client/Subscribe/Tests.antt =====
-- A subscription with two events, a full channel, and the theorem at concrete inputs.
use kin.Base.{
  ℕ, ◌+◌, ◌≤◌, ◌≡◌, refl, true, false, none, some, [], ◌∷◌, List, leb, replicate, arith, length,
  Bytes, eqb, ok, Result,
}
use kin.Base.Streams.{closed}
use kin.Ipc.{Request, Response, Event}
use kin.Ipc.Samples.{requests, responses, events}
use kin.Ipc.Framing.{frame, length-frame}
use kin.Ipc.Subscribers.{Server}
use kin.Ipc.Client.{Client}
use kin.Ipc.Server.{method_subscribe}
use kin.Ipc.Client.Calls.{at_rest}
use kin.Ipc.Client.Subscribe.{zero_event, Feed, new_feed, offer, listen, subscribe}
use kin.Ipc.Client.Subscribe.Heard.{frames, Heard}
use kin.Ipc.Client.Subscribe.Delivered.{
  broadcast_each, daemon_subscribes, behind, subscribe-broadcasts,
}

-- The 65th event that waits is dropped.
abbrev full : Feed
full = record new_feed { buffer = replicate 64 zero_event }

dropped_run : offer (record { kind = 7 ∷ []; raw_data = [] }) full ≡ full
unfolding offer
dropped_run = refl

abbrev nobody : Server
nobody = record {
  subscribers = [];
  subs = λ i. record {
    outgoing = record { written = []; room = 0 };
    deadline_ok = false;
    closed = true;
  };
  closed = false;
}

-- No request of the connection is for the handler.
abbrev unused : Request → Server → Response × Server
unused r s = (record { id = r.id; error = none; raw_data = [] }, s)

abbrev two_events : List (Event × Bytes)
two_events =
    (record { kind = 5 ∷ []; raw_data = [] }, 1 ∷ 5 ∷ [])
    ∷ (record { kind = 6 ∷ []; raw_data = [] }, 1 ∷ 6 ∷ [])
    ∷ []

two_fit : length (frame (1 ∷ [])) + length (frames events two_events) ≤ 100
unfolding kin.Protocol.Framing.header kin.Base.BigEndian.be_bytes
two_fit = omega arith

subscribe-broadcasts_example :
    (c : Client) × (s' : Server) × (f : Feed) × (subscribe requests responses
        (daemon_subscribes events responses requests unused 3 100)
        (at_rest 0 50 closed)
        nobody
      ≡ (ok new_feed, c, s'))
    × ((listen events
          (λ n. 1)
          (record {
            pending =
                behind events responses requests unused 3 100
                  (1 ∷ [])
                  (broadcast_each events responses two_events s');
            ending = closed;
          })
          new_feed).0
        ≡ f)
    × (f.closed ≡ true)
    × Heard events true [] two_events f
unfolding eqb kin.Ipc.Subscribers.Delivery.has
subscribe-broadcasts_example =
    subscribe-broadcasts events responses requests unused 3 100 0 50 closed (1 ∷ method_subscribe)
      (1 ∷ []) nobody two_events (λ n. 1) (refl, omega arith, omega arith) refl
      (refl, omega arith, omega arith) refl (omega (arith, length-frame (1 ∷ method_subscribe)))
      two_fit tt refl ((refl, omega arith, omega arith), ((refl, omega arith, omega arith), tt))
