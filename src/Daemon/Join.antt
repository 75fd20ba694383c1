-- ===== src/Daemon/Join.antt =====
-- internal/daemon/handler.go: joining by an invite token, and the dispatch of requests.
pub mod Invited
pub mod Kept
pub mod Once
pub mod Direct
mod Tests
use kin.Base.{
  ℕ, ◌≡◌, Bool, true, false, not, Option, none, some, List, [], ◌∷◌, ◌++◌, ◌==◌, if◌then◌else◌,
  length, Bytes, eqb, Result, ok, err,
}
use kin.Base.Times.{Time}
use kin.Bolt.{Bolt, Json}
use kin.Invite.{Crypto, Token, InviteError, decode, validate}
use kin.Peerstore.{Peer, tofu, put_peer, list_peers}
use kin.Peerstore.Nonces.{peer_nonces}
use kin.Catalog.{Entry, OwnerHint, list_all}
use kin.Connmgr.{DialError, Network, dial}
use kin.Daemon.{
  Host, Request, Response, Method, status, peers, invite, join, catalog, download, other_method,
  unknown_method, invalid_params, invalid_token, connect_failed, join_reply, err_response,
  ok_response, hex_node_id, handle_invite, status_response, peers_response, catalog_response,
  download_response,
}

-- What the handling of a request takes from the host: randomness, and the clock at the token's
-- validation or creation and at the storing of the peer.
pub record Call : Type 0 where
  pub request : Request
  pub random : Option Bytes
  pub now : Time
  pub later : Time

module _ (c : Crypto) (host : Host c) (bolt : Bolt) (peer_json : Json Peer)
    (entry_json : Json Entry) (hints_json : Json (List OwnerHint)) (net : Network) where
  open host use {sha256, string_param}
  open net use {World, Conn, peer_node_id}

  -- The state that the handler's calls change; `served` are the connections for which
  -- `serveJoinedPeer` was started.
  pub record State : Type 0 where
    pub store : kin.Peerstore.Store bolt peer_json
    pub files : kin.Catalog.Store bolt entry_json hints_json
    pub world : World
    pub served : List Conn

  -- `handleJoin` behind `Dial`. An error of `PutPeer`, which sets the peer's time, is logged.
  pub joined : ℕ → Token → Time → Result DialError Conn × World → State → Response × State
  joined id t later (err e, w) s = (err_response id connect_failed, record s { world = w })
  joined id t later (ok conn, w) s =
      let peer : Peer = record {
        node_id = peer_node_id conn;
        public_key = t.public_key;
        endpoints = t.endpoints;
        trust_state = tofu;
        last_seen = later;
      } in
      (
        ok_response id (join_reply (hex_node_id (peer_node_id conn))),
        record s {
          store = (put_peer bolt peer_json peer later s.store).1;
          world = w;
          served = s.served ++ conn ∷ [];
        },
      )

  -- `handleJoin` behind the validation.
  pub dial_token : ℕ → Token → Time → State → Response × State
  unfolding joined
  dial_token id t later s =
      if not (length t.public_key == 32)
      then (err_response id invalid_token, s)
      else if length t.endpoints == 0
      then (err_response id invalid_token, s)
      else joined id t later (dial net (sha256 t.public_key) t.endpoints s.world) s

  pub validated :
      ℕ
      → Token
      → Time
      → Result InviteError (Unit {0}) × kin.Peerstore.Store bolt peer_json
      → State
      → Response × State
  unfolding dial_token
  validated id t later (err e, store) s =
      (err_response id invalid_token, record s { store = store })
  validated id t later (ok _, store) s = dial_token id t later (record s { store = store })

  pub decoded : ℕ → Bytes → Time → Time → Result InviteError Token → State → Response × State
  unfolding validated
  decoded id raw now later (err e) s = (err_response id invalid_token, s)
  decoded id raw now later (ok t) s =
      validated id t later (validate c (peer_nonces bolt peer_json) now t raw s.store) s

  pub join_param : ℕ → Option Bytes → Time → Time → State → Response × State
  unfolding decoded
  join_param id none now later s = (err_response id invalid_params, s)
  join_param id (some raw) now later s =
      if eqb raw []
      then (err_response id invalid_params, s)
      else decoded id raw now later (decode c raw) s

  -- `handleJoin`
  pub handle_join : Call → State → Response × State
  unfolding join_param
  handle_join call s =
      join_param call.request.id (string_param call.request.params) call.now call.later s

  abbrev pub dispatch : Method → Call → State → Response × State
  dispatch status call s =
      (status_response c host call.request.id (list_peers bolt peer_json s.store), s)
  dispatch peers call s =
      (peers_response c host call.request.id (list_peers bolt peer_json s.store), s)
  dispatch invite call s = (handle_invite c host call.request.id call.random call.now, s)
  dispatch join call s = handle_join call s
  dispatch catalog call s =
      (catalog_response c host call.request.id (list_all bolt entry_json hints_json s.files), s)
  dispatch download call s =
      (download_response c host call.request.id (string_param call.request.params), s)
  dispatch (other_method m) call s = (err_response call.request.id unknown_method, s)

  -- `Handle`
  unfoldable pub handle : Call → State → Response × State
  unfolding handle_join
  handle call s = dispatch call.request.method call s
