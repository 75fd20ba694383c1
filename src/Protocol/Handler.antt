-- ===== src/Protocol/Handler.antt =====
-- internal/protocol/handler.go: what a node does with the messages of its peers.
pub mod Dispatch
pub mod Exchange
pub mod Registered
pub mod Joined
mod Tests
use kin.Base.{
  ℕ, zero, suc, ◌%◌, ◌^◌, ◌≡◌, Bool, true, false, not, Option, none, some, List, [], ◌∷◌, ◌==◌,
  if◌then◌else◌, length, Bytes, eqb, Result, ok, err,
}
use kin.Catalog.{Entry}
use kin.Catalog.Convert.{ConvertError, CatalogFile, proto_to_entry, entries_to_proto}
use kin.Messages.{
  Message, file_request, file_response, file_chunk, catalog_offer, catalog_ack, error_message,
  other,
}
use kin.Transfer.{Host, SendError, LocalIndex, Link, send, handle_request}

-- The interface `CatalogExchanger`; false stands for the error of `PutPeerEntries`.
pub record CatalogExchanger : Type 1 where
  pub Catalog : Type 0
  pub list_for_peer : Bytes → Catalog → Option (List Entry)
  pub put_peer_entries : Bytes → List Entry → Catalog → Bool × Catalog

pub data HandlerError : Type 0 where
  list_failed put_failed send_failed unhandled : HandlerError
  request_failed : SendError → HandlerError

-- A connection: the peer's id, and a number that tells its link from the others.
pub record Conn : Type 0 where
  pub peer_id : Bytes
  pub link : ℕ

-- The codes of the answer to a request with a bad id: "bad_request" and its text.
abbrev pub bad_request : Bytes
bad_request = b'b' ∷ b'a' ∷ b'd' ∷ b'_' ∷ b'r' ∷ b'e' ∷ b'q' ∷ b'u' ∷ b'e' ∷ b's' ∷ b't' ∷ []

-- The entries of an offer that can be read, in its order.
abbrev pub with_entry : Result ConvertError Entry → List Entry → List Entry
with_entry (ok e) es = e ∷ es
with_entry (err x) es = es

unfoldable pub accepted : List CatalogFile → List Entry
accepted [] = []
accepted (f ∷ fs) = with_entry (proto_to_entry f) (accepted fs)

-- A connection that a map has under the peer's id, after `registerConn` and `unregisterConn`.
abbrev pub set_conn : Bytes → Option Conn → (Bytes → Option Conn) → Bytes → Option Conn
set_conn id o conns i = if eqb id i then o else conns i

module _ (exchanger : CatalogExchanger) (host : Host) (error_text : Bytes) where
  open exchanger use {Catalog, list_for_peer, put_peer_entries}

  -- `Handler` with the links of its connections; `updates` counts the calls of `onCatalogUpdate`.
  pub record Handler : Type 0 where
    pub index : LocalIndex
    pub catalog : Option Catalog
    pub conns : Bytes → Option Conn
    pub links : ℕ → Link
    pub updates : ℕ

  -- What a call that used a connection leaves.
  abbrev pub with_link : Conn → Link → Handler → Handler
  with_link c l h = record h { links = λ k. if k == c.link then l else h.links k }

  -- `conn.Send`
  pub send_to : Conn → Message → Handler → Result HandlerError (Unit {0}) × Handler
  unfolding send
  send_to c m h =
      let (sent, l) = send m (h.links c.link) in
      (if sent then ok tt else err send_failed, with_link c l h)

  abbrev pub requested : Result SendError (Unit {0}) → Result HandlerError (Unit {0})
  requested (ok t) = ok t
  requested (err e) = err (request_failed e)

  -- `handleFileRequest`
  pub handle_file_request :
      (ℕ → Bool) → Bytes → Conn → Handler → Result HandlerError (Unit {0}) × Handler
  unfolding send_to
  handle_file_request cancelled id c h =
      if not (length id == 32)
      then send_to c (error_message bad_request error_text) h
      else let (r, l) = handle_request host h.index cancelled id (h.links c.link) in
        (requested r, with_link c l h)

  abbrev pub offer_entries :
      Option (List Entry) → Conn → Handler → Result HandlerError (Unit {0}) × Handler
  offer_entries none c h = (err list_failed, h)
  offer_entries (some es) c h = send_to c (catalog_offer (entries_to_proto es)) h

  -- `sendCatalogOfferTo`, for a handler that has a catalog.
  pub send_catalog_offer_to : Catalog → Conn → Handler → Result HandlerError (Unit {0}) × Handler
  unfolding send_to
  send_catalog_offer_to cat c h = offer_entries (list_for_peer c.peer_id cat) c h

  -- `handleCatalogOffer` of a handler with a catalog.
  pub accept_offer :
      Catalog → List CatalogFile → Conn → Handler → Result HandlerError (Unit {0}) × Handler
  unfolding accepted send_to
  accept_offer cat files c h =
      let entries = accepted files in
      let (done, cat') = put_peer_entries c.peer_id entries cat in
      if done
      then send_to c (catalog_ack (length entries % 2 ^ 32))
          (record h { catalog = some cat'; updates = suc h.updates })
      else (err put_failed, record h { catalog = some cat' })

  abbrev pub on_catalog :
      Option Catalog
      → (Catalog → Handler → Result HandlerError (Unit {0}) × Handler)
      → Handler
      → Result HandlerError (Unit {0}) × Handler
  on_catalog none f h = (ok tt, h)
  on_catalog (some cat) f h = f cat h

  -- `handleCatalogOffer`
  pub handle_catalog_offer :
      List CatalogFile → Conn → Handler → Result HandlerError (Unit {0}) × Handler
  unfolding accept_offer
  handle_catalog_offer files c h = on_catalog h.catalog (λ cat. accept_offer cat files c) h

  pub dispatch : (ℕ → Bool) → Message → Conn → Handler → Result HandlerError (Unit {0}) × Handler
  unfolding handle_file_request handle_catalog_offer
  dispatch cancelled (file_request id) c h = handle_file_request cancelled id c h
  dispatch cancelled (catalog_offer files) c h = handle_catalog_offer files c h
  dispatch cancelled (catalog_ack n) c h = (ok tt, h)
  dispatch cancelled (file_response id size missing) c h = (err unhandled, h)
  dispatch cancelled (file_chunk id bytes eof) c h = (err unhandled, h)
  dispatch cancelled (error_message code text) c h = (err unhandled, h)
  dispatch cancelled other c h = (err unhandled, h)

  unfoldable pub register_conn : Conn → Handler → Handler
  register_conn c h = record h { conns = set_conn c.peer_id (some c) h.conns }

  unfoldable pub unregister_conn : Bytes → Handler → Handler
  unregister_conn id h = record h { conns = set_conn id none h.conns }

  -- The loop of `Serve` on the messages that come until the connection closes. `cancelled i` is
  -- what the `i`-th look at the context finds, and `during i` what the looks find that the handling
  -- of the `i`-th message makes. An error of a message is logged, and the loop goes on.
  pub serve_loop : (ℕ → Bool) → (ℕ → ℕ → Bool) → ℕ → List Message → Conn → Handler → Handler
  unfolding dispatch
  serve_loop cancelled during i [] c h = h
  serve_loop cancelled during i (m ∷ ms) c h =
      let rest = serve_loop cancelled during (suc i) ms c (dispatch (during i) m c h).1 in
      if cancelled i then h else rest

  -- `Serve`
  pub serve : (ℕ → Bool) → (ℕ → ℕ → Bool) → List Message → Conn → Handler → Handler
  unfolding register_conn unregister_conn send_catalog_offer_to serve_loop
  serve cancelled during ms c h =
      let h' = (on_catalog h.catalog (λ cat. send_catalog_offer_to cat c) (register_conn c h)).1 in
      unregister_conn c.peer_id (serve_loop cancelled during 0 ms c h')

  -- The loop of `BroadcastCatalog` over the connections in the order in which they are visited.
  pub broadcast_loop : Catalog → List Conn → Handler → Handler
  unfolding send_catalog_offer_to
  broadcast_loop cat [] h = h
  broadcast_loop cat (c ∷ cs) h = broadcast_loop cat cs (send_catalog_offer_to cat c h).1

  abbrev pub broadcast_with : Option Catalog → List Conn → Handler → Handler
  broadcast_with none cs h = h
  broadcast_with (some cat) cs h = broadcast_loop cat cs h

  -- `BroadcastCatalog`: `cs` are the registered connections, in the order in which the map is read.
  pub broadcast_catalog : List Conn → Handler → Handler
  unfolding broadcast_loop
  broadcast_catalog cs h = broadcast_with h.catalog cs h
