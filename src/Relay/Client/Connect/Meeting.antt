-- ===== src/Relay/Client/Connect/Meeting.antt =====
-- A node that registers with a relay and asks it for another one.
use kin.Base.{
  ℕ, suc, ◌≡◌, refl, ◌∙◌, true, false, Option, none, some, [], ◌∷◌, ◌++◌, ◌==◌, length, Bytes, eqb,
  Result, ok, arith,
}
use kin.Relay.{
  relay_registered, relay_connect, relay_rendezvous, Entry, Server, State, serve_message,
  handle_connect, about,
}
use kin.Relay.Rendezvous.{handle_connect-introduces}
use kin.Relay.Client.{Rendezvous, connected}
use kin.Relay.Client.Waiters.{await-dispatch_rendezvous}
use kin.Relay.Client.Connect.{LinkError, Session, connect, turn, turns, request_rendezvous}
use kin.Relay.Client.Connect.Served.{take_message, served, entry_for, welcomed, connect_lem, ready}

module _ (join_host_port : Bytes → ℕ → Bytes) (ext_ip : Bytes) (conn : ℕ) where
  abbrev pub info : Entry → Rendezvous
  info t = record {
    peer_node_id = t.node_id;
    peer_public_key = t.public_key;
    peer_external_addr = t.external_addr;
  }

  -- The server once a welcomed node has asked for another one.
  abbrev pub after : Entry → Bytes → ℕ → State → Server
  after e target n st = handle_connect e target (welcomed join_host_port ext_ip conn e n st).server

  -- What the asking node's and the other node's connections have carried then.
  after-sent :
      (e t : Entry) (n k : ℕ) (st : State)
      → e.conn ≡ conn
      → length t.node_id ≡ 32
      → eqb e.node_id t.node_id ≡ false
      → st.server.registry t.node_id ≡ some t
      → (conn == t.conn) ≡ false
      → (st.server.wires t.conn).room ≡ suc k
      → (((after e t.node_id (suc n) st).wires conn).sent
          ≡ relay_registered e.external_addr ∷ about t ∷ [])
        × (((after e t.node_id (suc n) st).wires t.conn).sent
            ≡ (st.server.wires t.conn).sent ++ about e ∷ [])
  after-sent e t n k st at size other known apart room =
      let here : (conn == conn) ≡ true = ground arith in
      let apart' : (t.conn == conn) ≡ false = ground arith in
      let same : (t.conn == t.conn) ≡ true = ground arith in
      let s = (welcomed join_host_port ext_ip conn e (suc n) st).server in
      let told =
        handle_connect-introduces e t t.node_id s k n size (rw other known) (rw at apart)
          (rw apart' room) (rw (at, here) refl) in
      (told conn ∙ rw (at, here) refl, told t.conn ∙ rw (at, apart', same) refl)

  request_lem :
      (e : Entry) (target : Bytes) (n : ℕ) (st : State)
      → take_message join_host_port ext_ip conn conn
          (relay_connect target)
          (welcomed join_host_port ext_ip conn e n st)
        ≡ record (welcomed join_host_port ext_ip conn e n st) { server = after e target n st }
  unfolding serve_message
  request_lem e target n st = let here : (conn == conn) ≡ true = ground arith in rw here refl

  -- A call that gave a rendezvous, and left the server like this.
  abbrev pub Gives :
      Rendezvous
      → Server
      → Option (Result LinkError Rendezvous × Session (served join_host_port ext_ip conn))
        × (State × ℕ)
      → Type 0
  Gives rv s (none, w) = ⊥
  Gives rv s (some (r, c), w) = (r ≡ ok rv) × (w.0.server ≡ s)

  ask_lem :
      (id key : Bytes) (port n k : ℕ) (t : Entry) (st : State)
      → length t.node_id ≡ 32
      → eqb id t.node_id ≡ false
      → st.server.registry t.node_id ≡ some t
      → (conn == t.conn) ≡ false
      → (st.server.wires t.conn).room ≡ suc k
      → Gives
          (info t)
          (after (entry_for join_host_port ext_ip conn id key port) t.node_id (suc n) st)
          (request_rendezvous
            (served join_host_port ext_ip conn)
            t.node_id
            1
            (ready join_host_port ext_ip conn id key port)
            (
              welcomed join_host_port ext_ip conn
                  (entry_for join_host_port ext_ip conn id key port)
                  (suc n)
                  st,
              1,
            ))
  unfolding request_rendezvous turns turn connected
  ask_lem id key port n k t st size other known apart room =
      let e = entry_for join_host_port ext_ip conn id key port in
      let (mine, theirs) = after-sent e t n k st refl size other known apart room in
      let (c', d, a, r) = await-dispatch_rendezvous (info t) connected refl size in
      rw (request_lem e t.node_id (suc n) st, mine, d, r) (refl, refl)

  -- A node with an id and a key of 32 bytes connects, on a connection that works, to a relay that has
  -- no session on it, and asks for another node, which is registered under its id on another
  -- connection that works. Connect gives the address that the relay has made of the node's own address
  -- and its port, and with the first message that the relay sends then, RequestRendezvous gives the
  -- other node's id, key and address, while the other node is sent this one's.
  pub connect-request_rendezvous :
      (addr id key : Bytes) (port n k : ℕ) (t : Entry) (st : State)
      → length id ≡ 32
      → length key ≡ 32
      → st.sessions conn ≡ none
      → st.server.wires conn ≡ record { sent = []; room = suc (suc n) }
      → length t.node_id ≡ 32
      → eqb id t.node_id ≡ false
      → st.server.registry t.node_id ≡ some t
      → (conn == t.conn) ≡ false
      → (st.server.wires t.conn).room ≡ suc k
      → (c : Session (served join_host_port ext_ip conn)) × (w : State × ℕ) × (s : Server)
        × (connect (served join_host_port ext_ip conn) addr id key port (st, 0) ≡ (ok c, w))
        × (c.external_addr ≡ join_host_port ext_ip port)
        × Gives (info t) s (request_rendezvous (served join_host_port ext_ip conn) t.node_id 1 c w)
        × ((s.wires t.conn).sent
            ≡ (st.server.wires t.conn).sent
              ++ relay_rendezvous id key (join_host_port ext_ip port) ∷ [])
  connect-request_rendezvous addr id key port n k t st size_id size_key new fresh size other known
        apart room =
      let e = entry_for join_host_port ext_ip conn id key port in
      let (mine, theirs) = after-sent e t n k st refl size other known apart room in
      (
        ready join_host_port ext_ip conn id key port,
        (welcomed join_host_port ext_ip conn e (suc n) st, 1),
        after e t.node_id (suc n) st,
        (connect_lem join_host_port ext_ip conn) addr id key port (suc n) st size_id size_key new
            fresh,
        refl,
        ask_lem id key port n k t st size other known apart room,
        theirs,
      )
