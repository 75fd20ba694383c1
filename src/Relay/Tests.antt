-- ===== src/Relay/Tests.antt =====
-- A relay with two nodes, and the theorems at concrete inputs.
use kin.Base.{ℕ, ◌≡◌, refl, none, some, [], ◌∷◌, ◌++◌, ◌==◌, if◌then◌else◌, replicate, Bytes, eqb}
use kin.Relay.{
  RelayMessage, relay_register, about, Entry, Server, send, handle_connect, connect_found,
  introduce, register, confirm, State, joins,
}
use kin.Relay.Registry.{IsRegistry, stay, step, Steps-IsRegistry}

abbrev id_a : Bytes
id_a = replicate 32 1

abbrev id_b : Bytes
id_b = replicate 32 2

abbrev entry_of : Bytes → ℕ → Entry
entry_of id conn = record { node_id = id; public_key = id; external_addr = id; conn = conn }

abbrev two_nodes : Server
two_nodes = record {
  registry = λ id.
      if eqb id id_a
      then some (entry_of id_a 1)
      else if eqb id id_b
      then some (entry_of id_b 2)
      else none;
  wires = λ c. record { sent = []; room = 4 };
}

abbrev nobody : State
nobody = record {
  server = record { registry = λ id. none; wires = λ c. record { sent = []; room = 4 } };
  sessions = λ c. none;
}

abbrev join_host_port : Bytes → ℕ → Bytes
join_host_port ip port = ip ++ port ∷ []

-- A registration is confirmed with the address that the relay sees.
register_run :
    ((register join_host_port 1 (9 ∷ []) (relay_register id_a id_a 5) nobody.server).1.wires 1).sent
    ≡ RelayMessage.relay_registered (9 ∷ 5 ∷ []) ∷ []
unfolding register confirm send
register_run = refl

-- A node that is asked for is told who asks.
introduced :
    ((handle_connect (entry_of id_a 1) id_b two_nodes).wires 2).sent ≡ about (entry_of id_a 1) ∷ []
unfolding handle_connect connect_found introduce send eqb
introduced = refl

none-eq-some : {A : Type 0} {P : Type 0} {a : A} → none ≡ some a → P
none-eq-some h = cc

abbrev joined : State
joined = record {
  server = (register join_host_port 1 (9 ∷ []) (relay_register id_a id_a 5) nobody.server).1;
  sessions = λ c.
      if c == 1
      then (register join_host_port 1 (9 ∷ []) (relay_register id_a id_a 5) nobody.server).0
      else none;
}

Steps-IsRegistry_example : IsRegistry joined.server.registry
Steps-IsRegistry_example =
    Steps-IsRegistry join_host_port nobody joined
      (step nobody joined joined (joins 1 (9 ∷ []) (relay_register id_a id_a 5) nobody refl)
        (stay joined))
      (λ id e h. none-eq-some h)

-- The node reconnected as connection 3 before its connection 1 was closed.
abbrev twice : State
twice = record {
  server = two_nodes;
  sessions = λ c.
      if c == 1 then some (entry_of id_a 1) else if c == 3 then some (entry_of id_a 3) else none;
}
