-- ===== src/Relay/Client/Connect/Tests.antt =====
-- A relay with one node, a second one that joins and asks, and the theorem at concrete inputs.
use kin.Base.{
  ℕ, suc, ◌≡◌, refl, true, false, Option, none, some, [], ◌∷◌, ◌++◌, replicate, Bytes, eqb, ok, err,
  if◌then◌else◌,
}
use kin.Relay.{
  RelayMessage, relay_registered, relay_error, invalid_request, relay_rendezvous, Entry, Server,
  State,
}
use kin.Relay.Client.{connected, await, give_up, close_locked, received}
use kin.Relay.Client.Connect.{
  Link, Session, not_registered, cancelled, waiting_failed, admit, connect, turn, turns,
  request_rendezvous,
}
use kin.Relay.Client.Connect.Served.{served}
use kin.Relay.Client.Connect.Meeting.{Gives, info, connect-request_rendezvous}

abbrev id_a : Bytes
id_a = replicate 32 1

abbrev id_b : Bytes
id_b = replicate 32 2

abbrev node_b : Entry
node_b = record { node_id = id_b; public_key = id_b; external_addr = 8 ∷ []; conn = 2 }

abbrev one_node : State
one_node = record {
  server = record {
    registry = λ id. if eqb id id_b then some node_b else none;
    wires = λ c. record { sent = []; room = 4 };
  };
  sessions = λ c. none;
}

abbrev join_host_port : Bytes → ℕ → Bytes
join_host_port ip port = ip ++ port ∷ []

-- A relay that answers every read with one message, and counts the connections that are closed.
abbrev says : Option RelayMessage → Link
says m = record {
  World = ℕ;
  Conn = Unit {0};
  dial = λ addr w. (some tt, w);
  send = λ q m w. (true, w);
  receive = λ q w. (m, w);
  close = λ q w. suc w;
}

refused :
    connect (says (some (relay_error invalid_request))) [] id_a id_a 5 0 ≡ (err not_registered, 1)
unfolding connect admit
refused = refl

abbrev idle : (m : Option RelayMessage) → Session (says m)
idle m = record { conn = tt; listen_port = 5; external_addr = []; table = connected }

abbrev reply : {A B : Type 0} → Option (A × B) → Option A
reply none = none
reply (some (a, b)) = some a

-- A relay that ends the connection wakes who waits.
ended :
    reply (request_rendezvous (says none) id_b 1 (idle none) 0).0
    ≡ some (err (waiting_failed kin.Relay.Client.relay_disconnected))
unfolding request_rendezvous turns turn connected await give_up close_locked received
ended = refl

-- Where nothing comes but what nobody waits for, the context ends the call.
left_alone :
    reply
      (request_rendezvous
        (says (some (relay_registered [])))
        id_b
        3
        (idle (some (relay_registered [])))
        0).0
    ≡ some (err cancelled)
unfolding request_rendezvous turns turn connected await give_up received
left_alone = refl

b_known : one_node.server.registry id_b ≡ some node_b
unfolding eqb
b_known = refl

a_other : eqb id_a id_b ≡ false
unfolding eqb
a_other = refl

connect-request_rendezvous_example :
    (c : Session (served join_host_port (9 ∷ []) 1)) × (w : State × ℕ) × (s : Server) × (connect
        (served join_host_port (9 ∷ []) 1)
        []
        id_a
        id_a
        5
        (one_node, 0)
      ≡ (ok c, w))
    × (c.external_addr ≡ 9 ∷ 5 ∷ [])
    × Gives join_host_port
        (9 ∷ [])
        1
        (info join_host_port (9 ∷ []) 1 node_b)
        s
        (request_rendezvous (served join_host_port (9 ∷ []) 1) id_b 1 c w)
    × ((s.wires 2).sent ≡ relay_rendezvous id_a id_a (9 ∷ 5 ∷ []) ∷ [])
connect-request_rendezvous_example =
    connect-request_rendezvous join_host_port (9 ∷ []) 1 [] id_a id_a 5 2 3 node_b one_node refl
      refl refl refl refl a_other b_known refl refl
