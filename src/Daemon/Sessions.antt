-- ===== src/Daemon/Sessions.antt =====
-- internal/daemon: the peers' connections, which are accepted, announced and served side by side.
pub mod Counts
pub mod Sound
pub mod Told
mod Tests
use kin.Base.{ℕ, ◌≡◌, Bool, true, false, Option, none, some, List, [], ◌∷◌, ◌++◌, ◌==◌, Bytes}
use kin.Base.Times.{Time}
use kin.Bolt.{Bolt, Json}
use kin.Messages.{Message}
use kin.Transfer.{Host}
use kin.Peerstore.{Peer, Store, update_last_seen}
use kin.Protocol.Handler.{
  CatalogExchanger, Conn, Handler, on_catalog, send_catalog_offer_to, dispatch, register_conn,
  unregister_conn, broadcast_catalog,
}
use kin.Ipc.{Response, Event}
use kin.Ipc.Subscribers.{Server, broadcast}
use kin.Daemon.{hex_node_id, short_id}

-- `PeerInfo` as a peer-online event has it, with `Online` set.
pub record OnlineInfo : Type 0 where
  pub node_id : Bytes
  pub node_id_short : Bytes

-- "peer_online", "peer_offline" and "catalog_updated"
abbrev pub event_peer_online : Bytes
event_peer_online = b'p' ∷ b'e' ∷ b'e' ∷ b'r' ∷ b'_' ∷ b'o' ∷ b'n' ∷ b'l' ∷ b'i' ∷ b'n' ∷ b'e' ∷ []

abbrev pub event_peer_offline : Bytes
event_peer_offline =
    b'p' ∷ b'e' ∷ b'e' ∷ b'r' ∷ b'_' ∷ b'o' ∷ b'f' ∷ b'f' ∷ b'l' ∷ b'i' ∷ b'n' ∷ b'e' ∷ []

abbrev pub event_catalog_updated : Bytes
event_catalog_updated =
    b'c' ∷ b'a' ∷ b't' ∷ b'a' ∷ b'l' ∷ b'o' ∷ b'g' ∷ b'_' ∷ b'u' ∷ b'p' ∷ b'd' ∷ b'a' ∷ b't' ∷ b'e'
    ∷ b'd' ∷ []

-- A connection and whether its Serve has begun.
pub record Session : Type 0 where
  pub conn : Conn
  pub serving : Bool

-- `json.Marshal` of the data of the two events.
pub record Marshal : Type 0 where
  pub online_info : OnlineInfo → Option Bytes
  pub offline_id : Bytes → Option Bytes

-- `marshalData`
abbrev pub marshal_data : Option Bytes → Bytes
marshal_data none = []
marshal_data (some raw) = raw

module _ (marshal : Marshal) where
  pub online_event : Bytes → Event
  unfolding hex_node_id short_id
  online_event id = record {
    kind = event_peer_online;
    raw_data = marshal_data (
        marshal.online_info
          (record { node_id = hex_node_id id; node_id_short = short_id (hex_node_id id) }));
  }

  pub offline_event : Bytes → Event
  unfolding hex_node_id
  offline_event id = record {
    kind = event_peer_offline;
    raw_data = marshal_data (marshal.offline_id (hex_node_id id));
  }

module _ (bolt : Bolt) (json : Json Peer) (exchanger : CatalogExchanger) (host : Host)
    (error_text : Bytes) (events : Json Event) (responses : Json Response) (marshal : Marshal) where
  -- The daemon's parts that connections share, and the connections.
  pub record State : Type 0 where
    pub store : Store bolt json
    pub handler : Handler exchanger host error_text
    pub server : Server
    pub sessions : List Session

  -- `BroadcastPeerOnline` and `BroadcastPeerOffline`
  pub broadcast_peer_online : Bytes → State → State
  unfolding online_event
  broadcast_peer_online id st = record st {
    server = broadcast events responses (online_event marshal id) st.server;
  }

  pub broadcast_peer_offline : Bytes → State → State
  unfolding offline_event
  broadcast_peer_offline id st = record st {
    server = broadcast events responses (offline_event marshal id) st.server;
  }

  -- `BroadcastCatalogUpdated`
  pub broadcast_catalog_updated : State → State
  broadcast_catalog_updated st = record st {
    server =
        broadcast events responses (record { kind = event_catalog_updated; raw_data = [] })
          st.server;
  }

  -- `serveJoinedPeer` up to its Serve.
  pub add_session : Conn → State → State
  unfolding broadcast_peer_online
  add_session c st =
      broadcast_peer_online c.peer_id
        (record st { sessions = st.sessions ++ record { conn = c; serving = false } ∷ [] })

  -- A turn of `acceptLoop` on a connection that was accepted; an error of the store is logged.
  pub accept_conn : Conn → Time → State → State
  unfolding add_session
  accept_conn c now st =
      add_session c (record st { store = (update_last_seen bolt json c.peer_id now st.store).1 })

  -- `Serve` up to its loop.
  pub begin_serve : Conn → Handler exchanger host error_text → Handler exchanger host error_text
  unfolding register_conn
  begin_serve c h =
      (on_catalog exchanger host error_text h.catalog
        (λ cat. send_catalog_offer_to exchanger host error_text cat c)
        (register_conn exchanger host error_text c h)).1

  abbrev pub if_updated : Bool → State → State
  if_updated true st = st
  if_updated false st = broadcast_catalog_updated st

  -- A message in the loop of `Serve`. A new catalog is what `onCatalogUpdate` announces.
  pub receive_message : (ℕ → Bool) → Message → Conn → State → State
  unfolding broadcast_catalog_updated
  receive_message cancelled m c st =
      let h = (dispatch exchanger host error_text cancelled m c st.handler).1 in
      if_updated (h.updates == st.handler.updates) (record st { handler = h })

  -- The end of `Serve`, and of the goroutine that has called it.
  pub end_session : Conn → State → State
  unfolding broadcast_peer_offline unregister_conn
  end_session c st =
      broadcast_peer_offline c.peer_id
        (record st { handler = unregister_conn exchanger host error_text c.peer_id st.handler })

  -- The watcher's `onChange`.
  pub on_change : List Conn → State → State
  unfolding broadcast_catalog_updated
  on_change cs st =
      let st' = broadcast_catalog_updated st in
      record st' { handler = broadcast_catalog exchanger host error_text cs st'.handler }

  -- One step of the goroutines. `cs` are connections in the order in which the map is read.
  pub data Step : State → State → Type 0 where
    accepts : (c : Conn) (now : Time) (st : State) → Step st (accept_conn c now st)
    joins : (c : Conn) (st : State) → Step st (add_session c st)
    begins :
        (c : Conn) (before after : List Session) (st : State)
        → st.sessions ≡ before ++ record { conn = c; serving = false } ∷ after
        → Step st (record st {
          handler = begin_serve c st.handler;
          sessions = before ++ record { conn = c; serving = true } ∷ after;
        })
    receives :
        (c : Conn) (m : Message) (cancelled : ℕ → Bool) (before after : List Session) (st : State)
        → st.sessions ≡ before ++ record { conn = c; serving = true } ∷ after
        → Step st (receive_message cancelled m c st)
    ends :
        (c : Conn) (before after : List Session) (st : State)
        → st.sessions ≡ before ++ record { conn = c; serving = true } ∷ after
        → Step st (end_session c (record st { sessions = before ++ after }))
    changes : (cs : List Conn) (st : State) → Step st (on_change cs st)

  pub data Steps (st : State) : State → Type 0 where
    stay : Steps st st
    then_step : {u v : State} → Steps st u → Step u v → Steps st v
