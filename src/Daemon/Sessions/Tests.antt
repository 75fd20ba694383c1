-- ===== src/Daemon/Sessions/Tests.antt =====
-- A peer with two connections, of which the older one ends, and the theorem at this run.
use kin.Base.{◌≡◌, refl, true, false, none, some, [], ◌∷◌, ◌++◌, Bytes, eqb, arith}
use kin.Base.Ints.{pos}
use kin.Base.BigEndian.{be_bytes}
use kin.Base.Streams.{write}
use kin.Protocol.Framing.{header}
use kin.Bolt.Memory.{memory}
use kin.Transfer.{Host, new_local_index}
use kin.Peerstore.Samples.{key_json}
use kin.Protocol.Handler.{CatalogExchanger, Conn, register_conn, unregister_conn}
use kin.Ipc.Samples.{events, responses}
use kin.Daemon.Sessions.{
  Marshal, State, broadcast_peer_online, broadcast_peer_offline, online_event, offline_event,
  add_session, accept_conn, begin_serve, end_session, accepts, joins, begins, ends, Steps, stay,
  then_step,
}
use kin.Daemon.Sessions.Counts.{Notice, online, offline, updated}
use kin.Daemon.Sessions.Sound.{IsSound, Steps-IsSound}
use kin.Daemon.Sessions.Told.{event_of, frames_of, HasHeard, Steps-HasHeard}
use kin.Ipc.Framing.{Fits, write_json, write_frame, write_body}
use kin.Ipc.Subscribers.{set_sub, send, broadcast_loop, broadcast}
use kin.Ipc.Subscribers.Delivery.{has}

abbrev nothing : CatalogExchanger
nothing = record {
  Catalog = Unit {0};
  list_for_peer = λ id cat. none;
  put_peer_entries = λ id es cat. (true, cat);
}

abbrev host : Host
host = record {
  sha256 = λ bytes. bytes;
  read_file = λ path. none;
  stat = λ path. none;
  open_file = λ path. none;
  dest_path = λ dir id. dir ++ id;
}

abbrev as_is : Marshal
as_is = record { online_info = λ i. some i.node_id; offline_id = λ id. some id }

abbrev Daemon : Type 0
Daemon = State memory key_json nothing host [] events responses as_is

abbrev start : Daemon
start = record {
  store = record { peers = memory.empty; nonces = memory.empty };
  handler = record {
    index = new_local_index;
    catalog = none;
    conns = λ id. none;
    links = λ k. record { sent = []; room = 9 };
    updates = 0;
  };
  server = record {
    subscribers = 5 ∷ [];
    subs = λ i. record {
      outgoing = record { written = []; room = 100 };
      deadline_ok = true;
      closed = false;
    };
    closed = false;
  };
  sessions = [];
}

none_not_some : {c : Conn} → none ≡ some c → ⊥
none_not_some e = cc

start-IsSound : IsSound memory key_json nothing host [] events responses as_is start
start-IsSound = record { registered = λ id c e. absurd (none_not_some e) }

abbrev peer : Bytes
peer = 1 ∷ []

abbrev first : Conn
first = record { peer_id = peer; link = 1 }

abbrev second : Conn
second = record { peer_id = peer; link = 2 }

-- Both connections are accepted, one behind the other, and their Serves begin.
abbrev one : Daemon
one = accept_conn memory key_json nothing host [] events responses as_is first (pos 4) start

abbrev one_served : Daemon
one_served = record one {
  handler = begin_serve memory key_json nothing host [] events responses as_is first one.handler;
  sessions = record { conn = first; serving = true } ∷ [];
}

abbrev two : Daemon
two = add_session memory key_json nothing host [] events responses as_is second one_served

abbrev two_served : Daemon
two_served = record two {
  handler = begin_serve memory key_json nothing host [] events responses as_is second two.handler;
  sessions =
      record { conn = first; serving = true } ∷ record { conn = second; serving = true } ∷ [];
}

abbrev older_ended : Daemon
older_ended =
    end_session memory key_json nothing host [] events responses as_is first
      (record two_served { sessions = record { conn = second; serving = true } ∷ [] })

abbrev body : Notice → Bytes
body n = 1 ∷ (event_of as_is n).kind

body_fits : (n : Notice) → Fits events (event_of as_is n) (body n)
body_fits (online id) = (refl, ground arith, ground arith)
body_fits (offline id) = (refl, ground arith, ground arith)
body_fits updated = (refl, ground arith, ground arith)

-- The subscriber 5 was told that the peer is offline, and the peer is no longer registered, though it
-- has a connection.
left :
    ((older_ended.server.subs 5).outgoing.written
      ≡ frames_of body (online peer ∷ online peer ∷ offline peer ∷ []))
    × (older_ended.handler.conns peer ≡ none)
    × (older_ended.sessions ≡ record { conn = second; serving = true } ∷ [])
unfolding accept_conn add_session begin_serve end_session broadcast_peer_online
    broadcast_peer_offline online_event offline_event register_conn unregister_conn eqb broadcast
    broadcast_loop send set_sub write_json write_frame write_body write header be_bytes
left = (refl, refl, refl)

still_registered : has 5 older_ended.server.subscribers ≡ true
unfolding accept_conn add_session begin_serve end_session broadcast_peer_online
    broadcast_peer_offline online_event offline_event broadcast broadcast_loop send set_sub
    write_json write_frame write_body write header be_bytes has
still_registered = refl

abbrev Moves : Daemon → Daemon → Type 0
Moves = Steps memory key_json nothing host [] events responses as_is

run : Moves start older_ended
unfolding accept_conn add_session broadcast_peer_online
run =
    then_step
      (then_step
        (then_step
          (then_step (then_step stay (accepts first (pos 4) start)) (begins first [] [] one refl))
          (joins second one_served))
        (begins second (record { conn = first; serving = true } ∷ []) [] two refl))
      (ends first [] (record { conn = second; serving = true } ∷ []) two_served refl)

older_ended-IsSound : IsSound memory key_json nothing host [] events responses as_is older_ended
older_ended-IsSound =
    Steps-IsSound memory key_json nothing host [] events responses as_is run start-IsSound

Steps-HasHeard_example :
    HasHeard memory key_json nothing host [] events responses as_is body body_fits 5 start
      older_ended
unfolding has
Steps-HasHeard_example =
    Steps-HasHeard memory key_json nothing host [] events responses as_is body body_fits 5 run
      (refl, tt) still_registered
