-- ===== src/Daemon.antt =====
-- internal/daemon/handler.go: the requests that the daemon's clients make.
pub mod Join
pub mod Presence
pub mod Sessions
use kin.Base.{
  ℕ, ◌+◌, ◌-◌, ◌/◌, ◌%◌, ◌≡◌, Bool, true, false, not, ◌&&◌, Option, none, some, List, [], ◌∷◌, ◌++◌,
  map, ltb, ◌==◌, if◌then◌else◌, length, take, Bytes, eqb, Result, ok, err, ◌>>=◌,
}
use kin.Base.Ints.{ℤ, pos}
use kin.Base.Times.{Time}
use kin.Bolt.{Bolt, Json}
use kin.Invite.{Crypto, Token, InviteError, default_ttl, create, encode, decode, validate}
use kin.Peerstore.{Peer, TrustState, StoreError, tofu, put_peer, list_peers}
use kin.Peerstore.Nonces.{peer_nonces}
use kin.Catalog.{Entry, CatalogError, OwnerHint, list_all}
use kin.Connmgr.{Network, dial}

-- The codes of `errResponse`; the messages, which are for people, are left out.
pub data ErrorCode : Type 0 where
  unknown_method internal invalid_params invalid_token connect_failed not_implemented : ErrorCode

-- `StatusResponse`
pub record StatusResponse : Type 0 where
  pub node_id : Bytes
  pub node_id_short : Bytes
  pub listen_addr : Bytes
  pub shared_dir : Bytes
  pub peer_count : ℕ
  pub relay_addr : Bytes
  pub relay_online : Bool

-- `PeerInfo` as `handlePeers` fills it: `Online` stays false there.
pub record PeerInfo : Type 0 where
  pub node_id : Bytes
  pub node_id_short : Bytes
  pub trust_state : TrustState
  pub last_seen : Bytes
  pub endpoints : List Bytes

pub record FileInfo : Type 0 where
  pub file_id : Bytes
  pub name : Bytes
  pub size : ℤ
  pub mod_time : Bytes
  pub owner_node_id : Bytes
  pub is_local : Bool

-- The data of a response, before it is written as JSON.
pub data Reply : Type 0 where
  status_reply : StatusResponse → Reply
  peers_reply : List PeerInfo → Reply
  invite_reply join_reply : Bytes → Reply
  catalog_reply : List FileInfo → Reply

-- `Request` and `Response`. A method is a string in the source; those it knows are named here.
pub data Method : Type 0 where
  status peers invite join catalog download : Method
  other_method : Bytes → Method

pub record Request : Type 0 where
  pub id : ℕ
  pub method : Method
  pub params : Bytes

pub record Response : Type 0 where
  pub id : ℕ
  pub result : Result ErrorCode Reply

abbrev pub err_response : ℕ → ErrorCode → Response
err_response id code = record { id = id; result = err code }

abbrev pub ok_response : ℕ → Reply → Response
ok_response id reply = record { id = id; result = ok reply }

-- `hex.EncodeToString`
abbrev pub digit : ℕ → ℕ
digit n = if ltb n 10 then b'0' + n else b'a' + (n - 10)

pub hex_node_id : Bytes → Bytes
hex_node_id [] = []
hex_node_id (b ∷ bs) = digit (b / 16) ∷ digit (b % 16) ∷ hex_node_id bs

pub short_id : Bytes → Bytes
short_id hex = if ltb 16 (length hex) then take 16 hex else hex

-- Of an identity and the host what the handler uses: `sha256.Sum256`, the parsing of parameters,
-- `Format` of a time, and `net.SplitHostPort` with `net.ParseIP`, whose address may be unspecified.
pub record Host (c : Crypto) : Type 0 where
  pub priv_key : c.PrivKey
  pub node_id : Bytes
  pub listen_addr : Bytes
  pub shared_dir : Bytes
  pub relay_addr : Bytes
  pub sha256 : Bytes → Bytes
  pub string_param : Bytes → Option Bytes
  pub format_time : Time → Bytes
  pub split_host : Bytes → Option Bytes
  pub parse_ip : Bytes → Option Bytes
  pub is_unspecified : Bytes → Bool

module _ (c : Crypto) (host : Host c) where
  open host use {
    priv_key, node_id, listen_addr, shared_dir, relay_addr, format_time, split_host, parse_ip,
    is_unspecified,
  }

  abbrev pub specified : Option Bytes → Bool
  specified none = false
  specified (some ip) = not (is_unspecified ip)

  abbrev pub host_routable : Option Bytes → Bool
  host_routable none = false
  host_routable (some h) = if eqb h [] then false else specified (parse_ip h)

  pub is_routable_listen_addr : Bytes → Bool
  is_routable_listen_addr addr = host_routable (split_host addr)

  -- "relay://"
  abbrev pub scheme : Bytes
  scheme = b'r' ∷ b'e' ∷ b'l' ∷ b'a' ∷ b'y' ∷ b':' ∷ b'/' ∷ b'/' ∷ []

  pub invite_endpoints : List Bytes
  unfolding is_routable_listen_addr
  invite_endpoints =
      (if not (eqb listen_addr []) && is_routable_listen_addr listen_addr
        then listen_addr ∷ []
        else [])
      ++ (if eqb relay_addr [] then [] else (scheme ++ relay_addr) ∷ [])

  abbrev pub invited : ℕ → Result InviteError Bytes → Response
  invited id (ok raw) = ok_response id (invite_reply raw)
  invited id (err e) = err_response id internal

  -- `handleInvite`; `random` is what the nonce's `rand.Read` gives, `now` the clock.
  pub handle_invite : ℕ → Option Bytes → Time → Response
  unfolding invite_endpoints
  handle_invite id random now = invited id (do
    t ← create (c.public priv_key) random now invite_endpoints default_ttl
    encode c t priv_key)

  abbrev pub peer_info : Peer → PeerInfo
  peer_info p = record {
    node_id = hex_node_id p.node_id;
    node_id_short = short_id (hex_node_id p.node_id);
    trust_state = p.trust_state;
    last_seen = format_time p.last_seen;
    endpoints = p.endpoints;
  }

  abbrev pub file_info : Entry → FileInfo
  file_info e = record {
    file_id = hex_node_id e.file_id;
    name = e.name;
    size = e.size;
    mod_time = format_time e.mod_time;
    owner_node_id = hex_node_id e.owner_node_id;
    is_local = eqb e.owner_node_id node_id;
  }

  abbrev pub peers_response : ℕ → Result StoreError (List Peer) → Response
  peers_response id (ok ps) = ok_response id (peers_reply (map peer_info ps))
  peers_response id (err e) = err_response id internal

  abbrev pub status_response : ℕ → Result StoreError (List Peer) → Response
  status_response id (ok ps) = ok_response id (
      status_reply (record {
        node_id = hex_node_id node_id;
        node_id_short = short_id (hex_node_id node_id);
        listen_addr = listen_addr;
        shared_dir = shared_dir;
        peer_count = length ps;
        relay_addr = relay_addr;
        relay_online = not (eqb relay_addr []);
      }))
  status_response id (err e) = err_response id internal

  abbrev pub catalog_response : ℕ → Result CatalogError (List Entry) → Response
  catalog_response id (ok es) = ok_response id (catalog_reply (map file_info es))
  catalog_response id (err e) = err_response id internal

  -- `handleDownload`
  abbrev pub download_response : ℕ → Option Bytes → Response
  download_response id none = err_response id invalid_params
  download_response id (some file_id) =
      err_response id (if eqb file_id [] then invalid_params else not_implemented)
