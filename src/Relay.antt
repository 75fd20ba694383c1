-- ===== src/Relay.antt =====
-- internal/relay/server.go: the registry of connected nodes and the rendezvous of two of them.
pub mod Registry
pub mod Rendezvous
pub mod Client
mod Tests
use kin.Base.{
  ℕ, zero, suc, ◌≡◌, Bool, true, false, not, ◌&&◌, Option, none, some, List, [], ◌∷◌, ◌++◌, ◌==◌,
  if◌then◌else◌, length, Bytes, eqb,
}

pub data RelayReason : Type 0 where
  invalid_request peer_not_registered peer_unreachable : RelayReason

-- The messages of proto/kin.proto that the relay reads and sends.
pub data RelayMessage : Type 0 where
  relay_register : Bytes → Bytes → ℕ → RelayMessage
  relay_registered : Bytes → RelayMessage
  relay_connect : Bytes → RelayMessage
  relay_rendezvous : Bytes → Bytes → Bytes → RelayMessage
  relay_error : RelayReason → RelayMessage
  unexpected : RelayMessage

-- `entry`: `conn` numbers the connection.
pub record Entry : Type 0 where
  pub node_id : Bytes
  pub public_key : Bytes
  pub external_addr : Bytes
  pub conn : ℕ

-- A connection that takes `room` more messages and then fails.
pub record Wire : Type 0 where
  pub sent : List RelayMessage
  pub room : ℕ

-- The registry, and what has been sent on every connection.
pub record Server : Type 0 where
  pub registry : Bytes → Option Entry
  pub wires : ℕ → Wire

-- `entry.send`
pub send : Entry → RelayMessage → Server → Bool × Server
send e m s = elim (s.wires e.conn).room [
  | zero ↦ (false, s)
  | suc n ↦
      let wire : Wire = record { sent = (s.wires e.conn).sent ++ m ∷ []; room = n } in
      (true, record s { wires = λ c. if c == e.conn then wire else s.wires c })
]

pub deregister : Bytes → Server → Server
deregister id s = record s { registry = λ i. if eqb id i then none else s.registry i }

-- `RelayRendezvous` about a node.
abbrev pub about : Entry → RelayMessage
about e = relay_rendezvous e.node_id e.public_key e.external_addr

-- The two messages of a rendezvous: the target's goes first.
pub introduce : Entry → Entry → Server → Server
unfolding send
introduce requester target s =
    let (sent, s') = send target (about requester) s in
    if sent
    then (send requester (about target) s').1
    else (send requester (relay_error peer_unreachable) s').1

pub connect_found : Entry → Option Entry → Server → Server
unfolding introduce send
connect_found requester none s = (send requester (relay_error peer_not_registered) s).1
connect_found requester (some target) s = introduce requester target s

-- `handleConnect`
pub handle_connect : Entry → Bytes → Server → Server
unfolding connect_found send
handle_connect requester target_id s =
    if not (length target_id == 32)
    then (send requester (relay_error invalid_request) s).1
    else connect_found requester (s.registry target_id) s

-- `Serve` from a valid registration to its confirmation: the session, if there is one.
pub confirm : Entry → Server → Option Entry × Server
unfolding send deregister
confirm e s =
    let s' = record s { registry = λ i. if eqb e.node_id i then some e else s.registry i } in
    let (sent, s'') = send e (relay_registered e.external_addr) s' in
    if sent then (some e, s'') else (none, deregister e.node_id s'')

-- `Serve` up to its loop. `join_host_port` writes the address and the port.
pub register : (Bytes → ℕ → Bytes) → ℕ → Bytes → RelayMessage → Server → Option Entry × Server
unfolding confirm
register join_host_port conn ext_ip (relay_register id key port) s =
    let e : Entry = record {
      node_id = id;
      public_key = key;
      external_addr = join_host_port ext_ip port;
      conn = conn;
    } in
    if not (length id == 32 && length key == 32) then (none, s) else confirm e s
register join_host_port conn ext_ip (relay_registered addr) s = (none, s)
register join_host_port conn ext_ip (relay_connect id) s = (none, s)
register join_host_port conn ext_ip (relay_rendezvous id key addr) s = (none, s)
register join_host_port conn ext_ip (relay_error reason) s = (none, s)
register join_host_port conn ext_ip unexpected s = (none, s)

-- A turn of `Serve`'s loop.
pub serve_message : Entry → RelayMessage → Server → Server
unfolding handle_connect
serve_message e (relay_connect target_id) s = handle_connect e target_id s
serve_message e (relay_register id key port) s = s
serve_message e (relay_registered addr) s = s
serve_message e (relay_rendezvous id key addr) s = s
serve_message e (relay_error reason) s = s
serve_message e unexpected s = s

-- The server with the sessions that are in `Serve`'s loop.
pub record State : Type 0 where
  pub server : Server
  pub sessions : ℕ → Option Entry

abbrev pub with_session : ℕ → Option Entry → State → ℕ → Option Entry
with_session conn o st c = if c == conn then o else st.sessions c

-- One step of one of the connections, which are served at the same time: the whole handling of a
-- message is taken as one step.
pub data Step (join_host_port : Bytes → ℕ → Bytes) : State → State → Type 0 where
  joins :
      (conn : ℕ) (ext_ip : Bytes) (m : RelayMessage) (st : State)
      → st.sessions conn ≡ none
      → Step join_host_port st (record {
        server = (register join_host_port conn ext_ip m st.server).1;
        sessions = with_session conn (register join_host_port conn ext_ip m st.server).0 st;
      })
  asks :
      (conn : ℕ) (e : Entry) (m : RelayMessage) (st : State)
      → st.sessions conn ≡ some e
      → Step join_host_port st (record st { server = serve_message e m st.server })
  leaves :
      (conn : ℕ) (e : Entry) (st : State)
      → st.sessions conn ≡ some e
      → Step join_host_port st
          (record { server = deregister e.node_id st.server; sessions = with_session conn none st })
