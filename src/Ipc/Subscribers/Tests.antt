-- ===== src/Ipc/Subscribers/Tests.antt =====
-- Two subscribers, one of them gone, and the theorem at them.
use kin.Base.{
  ◌≡◌, ◌&&◌, refl, sym, ap, Bool, true, false, some, some_injective, none, [], ◌∷◌, arith, drop,
  ◌==◌, if◌then◌else◌, ok,
}
use kin.Base.BigEndian.{be_bytes}
use kin.Base.Streams.{write}
use kin.Protocol.Framing.{header}
use kin.Ipc.{Event}
use kin.Ipc.Samples.{responses, events}
use kin.Ipc.Framing.{write_json, write_frame, write_body}
use kin.Ipc.Subscribers.{
  Subscriber, Server, set_sub, remove_first, remove_sub, close_sub, send, broadcast_loop, broadcast,
  subscribe, close_each, close_server,
}
use kin.Ipc.Subscribers.Delivery.{has, takes, Fate, broadcast-delivered}

-- The first connection has room for 20 bytes, the second for one.
abbrev sub_at : kin.Base.ℕ → Subscriber
sub_at i = record {
  outgoing = record { written = []; room = if i == 1 then 20 else 1 };
  deadline_ok = true;
  closed = false;
}

abbrev server : Server
server = record { subscribers = 1 ∷ 2 ∷ []; subs = sub_at; closed = false }

abbrev gone : Event
gone = record { kind = 7 ∷ []; raw_data = [] }

broadcast_run :
    ((broadcast events responses gone server).subscribers ≡ 1 ∷ [])
    × (((broadcast events responses gone server).subs 1).outgoing.written
        ≡ 0 ∷ 0 ∷ 0 ∷ 2 ∷ 1 ∷ 7 ∷ [])
    × (((broadcast events responses gone server).subs 2).closed ≡ true)
unfolding broadcast broadcast_loop send set_sub remove_sub remove_first close_sub write_json
    write_frame write_body write header be_bytes
broadcast_run = (refl, refl, refl)

-- Nobody is left registered when the server closes.
close_run :
    ((close_server events responses server).subscribers ≡ [])
    × (((close_server events responses server).subs 2).closed ≡ true)
unfolding close_server close_each close_sub set_sub
close_run = (refl, refl)

subscribe_run :
    (subscribe events responses 5 3 (record { written = []; room = 9 }) server).1.subscribers
    ≡ 1 ∷ 2 ∷ 3 ∷ []
unfolding subscribe set_sub write_json write_frame write_body write header be_bytes
subscribe_run = refl

broadcast-delivered_example :
    Fate events responses gone
      (1 ∷ 7 ∷ [])
      (refl, omega arith, omega arith)
      true
      (takes events responses gone (1 ∷ 7 ∷ []) (refl, omega arith, omega arith) (server.subs 1))
      (server.subs 1)
      ((broadcast events responses gone server).subs 1)
    × (has 1 (broadcast events responses gone server).subscribers ≡ (
        has 1 server.subscribers
        && takes events responses gone
            (1 ∷ 7 ∷ [])
            (refl, omega arith, omega arith)
            (server.subs 1)))
unfolding has
broadcast-delivered_example =
    broadcast-delivered events responses gone (1 ∷ 7 ∷ []) (refl, omega arith, omega arith) 1 server
      (refl, (refl, tt))
