-- ===== src/Relay/Registry.antt =====
-- What the registry holds, through every interleaving of connections.
use mathlib.Core.Path.{subst}
use kin.Base.{
  ℕ, zero, suc, ◌≡◌, refl, ◌∙◌, inl, inr, ◌&&◌, Option, none, some, ◌==◌, if◌then◌else◌, arith,
  length, Bytes, eqb, eqb_iff, Bool-cases, some_injective,
}
use kin.Relay.{
  RelayMessage, about, invalid_request, peer_not_registered, peer_unreachable, relay_register,
  relay_registered, relay_connect, relay_rendezvous, relay_error, unexpected, Entry, Server, send,
  deregister, introduce, connect_found, handle_connect, confirm, register, serve_message, State,
  Step, joins, asks, leaves,
}

-- An entry stands under its own id, and its id and its key have 32 bytes each.
pub record IsEntry (id : Bytes) (e : Entry) : Type 0 where
  pub own : e.node_id ≡ id
  pub id_length : length e.node_id ≡ 32
  pub key_length : length e.public_key ≡ 32

abbrev pub IsRegistry : (Bytes → Option Entry) → Type 0
IsRegistry registry = (id : Bytes) (e : Entry) → registry id ≡ some e → IsEntry id e

send_by_room :
    (e : Entry) (m : RelayMessage) (s : Server) (n : ℕ)
    → (s.wires e.conn).room ≡ n
    → (send e m s).1.registry ≡ s.registry
unfolding send
send_by_room e m s zero h = rw (send, h) refl
send_by_room e m s (suc n) h = rw (send, h) refl

-- Sending a message leaves the registry alone.
pub send_registry :
    (e : Entry) (m : RelayMessage) (s : Server) → (send e m s).1.registry ≡ s.registry
send_registry e m s = send_by_room e m s (s.wires e.conn).room refl

introduce_registry : (e t : Entry) (s : Server) → (introduce e t s).registry ≡ s.registry
unfolding introduce
introduce_registry e t s = elim (Bool-cases (send t (about e) s).0) [
  | inl y ↦ rw y (send_registry e (about t) (send t (about e) s).1 ∙ send_registry t (about e) s)
  | inr n ↦ rw n (
      send_registry e (relay_error peer_unreachable) (send t (about e) s).1
      ∙ send_registry t (about e) s)
]

connect_found_registry :
    (e : Entry) (o : Option Entry) (s : Server) → (connect_found e o s).registry ≡ s.registry
unfolding connect_found
connect_found_registry e none s = send_registry e (relay_error peer_not_registered) s
connect_found_registry e (some t) s = introduce_registry e t s

handle_connect_registry :
    (e : Entry) (id : Bytes) (s : Server) → (handle_connect e id s).registry ≡ s.registry
unfolding handle_connect
handle_connect_registry e id s = elim (Bool-cases (length id == 32)) [
  | inl y ↦ rw y (connect_found_registry e (s.registry id) s)
  | inr n ↦ rw n (send_registry e (relay_error invalid_request) s)
]

pub serve_message_registry :
    (e : Entry) (m : RelayMessage) (s : Server) → (serve_message e m s).registry ≡ s.registry
unfolding serve_message
serve_message_registry e (relay_connect id) s = handle_connect_registry e id s
serve_message_registry e (relay_register id key port) s = refl
serve_message_registry e (relay_registered addr) s = refl
serve_message_registry e (relay_rendezvous id key addr) s = refl
serve_message_registry e (relay_error reason) s = refl
serve_message_registry e unexpected s = refl

no_entry : {P : Type 0} {e : Entry} → none ≡ some e → P
no_entry h = cc

removed-IsRegistry :
    (id : Bytes) (registry : Bytes → Option Entry)
    → IsRegistry registry
    → IsRegistry (λ i. if eqb id i then none else registry i)
removed-IsRegistry id registry h i e q = elim (Bool-cases (eqb id i)) [
  | inl t ↦ no_entry (rw t at q)
  | inr f ↦ h i e (rw f at q)
]

added-IsRegistry :
    (a : Entry) (registry : Bytes → Option Entry)
    → IsEntry a.node_id a
    → IsRegistry registry
    → IsRegistry (λ i. if eqb a.node_id i then some a else registry i)
added-IsRegistry a registry k h i e q = elim (Bool-cases (eqb a.node_id i)) [
  | inl t ↦
      subst (IsEntry i) (some_injective (rw t at q))
        (subst (λ j. IsEntry j a) ((eqb_iff a.node_id i).0 t) k)
  | inr f ↦ h i e (rw f at q)
]

confirm-IsRegistry :
    (e : Entry) (s : Server)
    → IsEntry e.node_id e
    → IsRegistry s.registry
    → IsRegistry (confirm e s).1.registry
unfolding confirm deregister
confirm-IsRegistry e s k h =
    let s' : Server = record s {
      registry = λ i. if eqb e.node_id i then some e else s.registry i;
    } in
    let m = relay_registered e.external_addr in
    let added : IsRegistry (send e m s').1.registry =
      rw (send_registry e m s') (added-IsRegistry e s.registry k h) in
    elim (Bool-cases (send e m s').0) [
      | inl y ↦ rw y added
      | inr n ↦ rw n (removed-IsRegistry e.node_id (send e m s').1.registry added)
    ]

register-IsRegistry :
    (join_host_port : Bytes → ℕ → Bytes) (conn : ℕ) (ext_ip : Bytes) (m : RelayMessage) (s : Server)
    → IsRegistry s.registry
    → IsRegistry (register join_host_port conn ext_ip m s).1.registry
unfolding register
register-IsRegistry join conn ip (relay_register id key port) s h =
    elim (Bool-cases (length id == 32 && length key == 32)) [
      | inl y ↦ rw y (
          confirm-IsRegistry
            (record { node_id = id; public_key = key; external_addr = join ip port; conn = conn }) s
            (record { own = refl; id_length = ground arith; key_length = ground arith }) h)
      | inr n ↦ rw n h
    ]
register-IsRegistry join conn ip (relay_registered addr) s h = h
register-IsRegistry join conn ip (relay_connect id) s h = h
register-IsRegistry join conn ip (relay_rendezvous id key addr) s h = h
register-IsRegistry join conn ip (relay_error reason) s h = h
register-IsRegistry join conn ip unexpected s h = h

-- Any number of steps.
pub data Steps (join_host_port : Bytes → ℕ → Bytes) : State → State → Type 0 where
  stay : (st : State) → Steps join_host_port st st
  step :
      (st mid end : State)
      → Step join_host_port st mid
      → Steps join_host_port mid end
      → Steps join_host_port st end

Step-IsRegistry :
    (join_host_port : Bytes → ℕ → Bytes) (st st' : State)
    → Step join_host_port st st'
    → IsRegistry st.server.registry
    → IsRegistry st'.server.registry
unfolding deregister
Step-IsRegistry join st st' (joins conn ip m _ free) h =
    register-IsRegistry join conn ip m st.server h
Step-IsRegistry join st st' (asks conn e m _ live) h = rw (serve_message_registry e m st.server) h
Step-IsRegistry join st st' (leaves conn e _ live) h =
    removed-IsRegistry e.node_id st.server.registry h

-- From a registry in which every entry stands under its own id, with an id and a key of 32 bytes,
-- every interleaving of connections that join, ask and leave ends in such a registry.
pub Steps-IsRegistry :
    (join_host_port : Bytes → ℕ → Bytes) (st st' : State)
    → Steps join_host_port st st'
    → IsRegistry st.server.registry
    → IsRegistry st'.server.registry
Steps-IsRegistry join st st' (stay _) h = h
Steps-IsRegistry join st st' (step _ mid _ one rest) h =
    Steps-IsRegistry join mid st' rest (Step-IsRegistry join st mid one h)
