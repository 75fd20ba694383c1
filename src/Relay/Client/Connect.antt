-- ===== src/Relay/Client/Connect.antt =====
-- internal/relay/client.go: registering with a relay, and asking it for a peer.
pub mod Served
pub mod Meeting
mod Tests
use kin.Base.{
  ℕ, zero, suc, ◌≡◌, Bool, true, false, Option, none, some, List, [], ◌∷◌, Bytes, Result, ok, err,
}
use kin.Relay.{
  RelayMessage, relay_register, relay_registered, relay_connect, relay_rendezvous, relay_error,
  unexpected,
}
use kin.Relay.Client.{
  Rendezvous, ClientError, relay_disconnected, received, Client, await, give_up,
  dispatch_rendezvous, close_locked, connected,
}

pub data LinkError : Type 0 where
  dial_failed register_failed response_failed not_registered request_failed cancelled : LinkError
  waiting_failed : ClientError → LinkError

-- TLS connections that carry messages. A connection that has ended gives none.
pub record Link : Type 1 where
  pub World : Type 0
  pub Conn : Type 0
  pub dial : Bytes → World → Option Conn × World
  pub send : Conn → RelayMessage → World → Bool × World
  pub receive : Conn → World → Option RelayMessage × World
  pub close : Conn → World → World

module _ (link : Link) where
  open link use {World, Conn, send, receive, close}

  -- `Client`, with its table of waiters.
  pub record Session : Type 0 where
    pub conn : Conn
    pub listen_port : ℕ
    pub external_addr : Bytes
    pub table : Client

  -- The end of `Connect`: what came in place of `RelayRegistered` closes the connection.
  pub admit : Conn → ℕ → Option RelayMessage × World → Result LinkError Session × World
  admit q port (none, w) = (err response_failed, close q w)
  admit q port (some (relay_registered addr), w) =
      (ok (record { conn = q; listen_port = port; external_addr = addr; table = connected }), w)
  admit q port (some (relay_register id key p), w) = (err not_registered, close q w)
  admit q port (some (relay_connect id), w) = (err not_registered, close q w)
  admit q port (some (relay_rendezvous id key addr), w) = (err not_registered, close q w)
  admit q port (some (relay_error reason), w) = (err not_registered, close q w)
  admit q port (some unexpected, w) = (err not_registered, close q w)

  abbrev pub announced : Conn → ℕ → Bool × World → Result LinkError Session × World
  announced q port (true, w) = admit q port (receive q w)
  announced q port (false, w) = (err register_failed, close q w)

  abbrev pub reached : Bytes → Bytes → ℕ → Option Conn × World → Result LinkError Session × World
  reached id key port (none, w) = (err dial_failed, w)
  reached id key port (some q, w) = announced q port (send q (relay_register id key port) w)

  -- `Connect`
  pub connect : Bytes → Bytes → Bytes → ℕ → World → Result LinkError Session × World
  unfolding admit
  connect addr id key port w = reached id key port (link.dial addr w)

  -- A turn of `readLoop`; none is a panic. A connection that has ended closes the table.
  pub turn : Option RelayMessage → Client → Option Client
  turn none c = close_locked c
  turn (some (relay_rendezvous id key addr)) c =
      dispatch_rendezvous
        (record { peer_node_id = id; peer_public_key = key; peer_external_addr = addr }) c
  turn (some (relay_error reason)) c = close_locked c
  turn (some (relay_register id key port)) c = some c
  turn (some (relay_registered addr)) c = some c
  turn (some (relay_connect id)) c = some c
  turn (some unexpected) c = some c

  abbrev pub turned : Option RelayMessage × World → Client → Option Client × World
  turned (m, w) c = (turn m c, w)

  abbrev pub then_turns :
      (Client → World → Option Client × World) → Option Client × World → Option Client × World
  then_turns f (none, w) = (none, w)
  then_turns f (some c, w) = f c w

  pub turns : ℕ → Conn → Client → World → Option Client × World
  unfolding turn
  turns zero q c w = (some c, w)
  turns (suc n) q c w = then_turns (turns n q) (turned (receive q w) c)

  -- What has come, or else that the context was cancelled.
  abbrev pub lifted : Option (Result ClientError Rendezvous) → Result LinkError Rendezvous
  lifted none = err cancelled
  lifted (some (ok rv)) = ok rv
  lifted (some (err e)) = err (waiting_failed e)

  -- What a call returns, and the client that it leaves. None is a panic of the read loop.
  abbrev pub Given : Type 0
  Given = Option (Result LinkError Rendezvous × Session) × World

  abbrev pub looked : Bytes → ℕ → Session → Option Client × World → Given
  looked target n s (none, w) = (none, w)
  looked target n s (some c, w) =
      (some (lifted (received (c.chans n)), record s { table = give_up target c }), w)

  abbrev pub asked : Bytes → ℕ → ℕ → Session → Bool × World → Given
  asked target reads n s (true, w) = looked target n s (turns reads s.conn s.table w)
  asked target reads n s (false, w) =
      (some (err request_failed, record s { table = give_up target s.table }), w)

  abbrev pub awaited : Bytes → ℕ → Session → World → Option ℕ × Client → Given
  awaited target reads s w (none, c) = (some (err (waiting_failed relay_disconnected), s), w)
  awaited target reads s w (some n, c) =
      asked target reads n (record s { table = c }) (send s.conn (relay_connect target) w)

  -- `RequestRendezvous`, where `readLoop` reads this many messages before the context is cancelled.
  pub request_rendezvous : Bytes → ℕ → Session → World → Given
  unfolding turns await give_up received
  request_rendezvous target reads s w = awaited target reads s w (await target s.table)
