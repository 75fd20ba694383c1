-- ===== src/Daemon/Join/Invited.antt =====
-- A token that one node's daemon gives out lets another node's daemon join.
use kin.Base.{List, Bytes}
use kin.Base.Times.{Time, add}
use kin.Bolt.{Bolt, Json}
use kin.Invite.{Crypto, Token, default_ttl}
use kin.Peerstore.{Peer}
use kin.Catalog.{Entry, OwnerHint}
use kin.Connmgr.{Network}
use kin.Daemon.{Host, invite_endpoints}
use kin.Daemon.Join.{State}

-- The token that `handleInvite` makes.
abbrev pub token_of : (c : Crypto) → Host c → Bytes → Time → Token
token_of c host nonce now = record {
  public_key = c.public host.priv_key;
  endpoints = invite_endpoints c host;
  nonce = nonce;
  expires_at = add now default_ttl;
}

module _ (c : Crypto) (host : Host c) (bolt : Bolt) (peer_json : Json Peer)
    (entry_json : Json Entry) (hints_json : Json (List OwnerHint)) (net : Network) where
  open host use {sha256, string_param}
  open net use {World, Conn, peer_node_id}

  abbrev Daemon : Type 0
  Daemon = State c host bolt peer_json entry_json hints_json net

  abbrev Peers : Type 0
  Peers = kin.Peerstore.Store bolt peer_json
