-- ===== src/Relay/Client/Connect/Served.antt =====
-- The relay's Serve as the other end of a client's connection, and Connect over it.
use kin.Base.{
  ℕ, zero, suc, ◌≡◌, refl, ap, true, Option, none, some, List, [], ◌∷◌, ◌==◌, if◌then◌else◌, length,
  Bytes, eqb, ok, arith, ◌&&◌,
}
use kin.Relay.{
  RelayMessage, relay_register, relay_registered, Entry, Server, State, with_session, register,
  confirm, serve_message,
}
use kin.Relay.Rendezvous.{send_wires}
use kin.Relay.Client.{connected}
use kin.Relay.Client.Connect.{Link, Session, admit, connect}

abbrev pub nth : List RelayMessage → ℕ → Option RelayMessage
nth [] n = none
nth (m ∷ ms) zero = some m
nth (m ∷ ms) (suc n) = nth ms n

module _ (join_host_port : Bytes → ℕ → Bytes) (ext_ip : Bytes) (conn : ℕ) where
  -- The first message is the server's registration, and each one behind it a turn of its loop.
  abbrev pub taken_by : Option Entry → ℕ → RelayMessage → State → State
  taken_by none q m st = record {
    server = (register join_host_port q ext_ip m st.server).1;
    sessions = with_session q (register join_host_port q ext_ip m st.server).0 st;
  }
  taken_by (some e) q m st = record st { server = serve_message e m st.server }

  abbrev pub take_message : ℕ → RelayMessage → State → State
  take_message q m st = taken_by (st.sessions q) q m st

  -- The connection of this number to the server, with the count of messages that were read of it.
  abbrev pub served : Link
  served = record {
    World = State × ℕ;
    Conn = ℕ;
    dial = λ addr w. (some conn, w);
    send = λ q m w. (true, (take_message q m w.0, w.1));
    receive = λ q w. (nth (w.0.server.wires q).sent w.1, (w.0, suc w.1));
    close = λ q w. w;
  }

  abbrev pub entry_for : Bytes → Bytes → ℕ → Entry
  entry_for id key port = record {
    node_id = id;
    public_key = key;
    external_addr = join_host_port ext_ip port;
    conn = conn;
  }

  -- The state behind a registration that was confirmed.
  abbrev pub welcomed : Entry → ℕ → State → State
  welcomed e n st = record {
    server = record {
      registry = λ i. if eqb e.node_id i then some e else st.server.registry i;
      wires = λ c.
          if c == conn
          then record { sent = relay_registered e.external_addr ∷ []; room = n }
          else st.server.wires c;
    };
    sessions = with_session conn (some e) st;
  }

  welcome_lem :
      (id key : Bytes) (port n : ℕ) (st : State)
      → length id ≡ 32
      → length key ≡ 32
      → st.sessions conn ≡ none
      → st.server.wires conn ≡ record { sent = []; room = suc n }
      → take_message conn (relay_register id key port) st ≡ welcomed (entry_for id key port) n st
  unfolding register confirm
  welcome_lem id key port n st size_id size_key new fresh =
      let both : (length id == 32 && length key == 32) ≡ true = ground arith in
      let e = entry_for id key port in
      let s' : Server = record (st.server) {
        registry = λ i. if eqb id i then some e else st.server.registry i;
      } in
      let room : (s'.wires conn).room ≡ suc n = ap (λ w. w.room) fresh in
      rw (new, both, send_wires e (relay_registered e.external_addr) s' n room, fresh) refl

  pub connect_lem :
      (addr id key : Bytes) (port n : ℕ) (st : State)
      → length id ≡ 32
      → length key ≡ 32
      → st.sessions conn ≡ none
      → st.server.wires conn ≡ record { sent = []; room = suc n }
      → connect served addr id key port (st, 0) ≡ (
        ok (record {
          conn = conn;
          listen_port = port;
          external_addr = join_host_port ext_ip port;
          table = connected;
        }),
        (welcomed (entry_for id key port) n st, 1),
      )
  unfolding connect admit
  connect_lem addr id key port n st size_id size_key new fresh =
      let here : (conn == conn) ≡ true = ground arith in
      rw (welcome_lem id key port n st size_id size_key new fresh, here) refl

  abbrev pub ready : Bytes → Bytes → ℕ → Session served
  ready id key port = record {
    conn = conn;
    listen_port = port;
    external_addr = join_host_port ext_ip port;
    table = connected;
  }
