-- ===== src/Peerstore.antt =====
-- internal/peerstore: the known peers and the used invite nonces.
pub mod Endpoints
pub mod Pinning
pub mod Expected
pub mod Nonces
pub mod Samples
mod Tests
use kin.Base.{
  ℕ, ◌≡◌, Bool, true, false, not, Option, none, some, List, [], ◌∷◌, ◌++◌, map, if◌then◌else◌,
  Bytes, eqb, Result, ok, err, ◌>>=◌,
}
use kin.Base.Times.{Time}
use kin.Bolt.{Bolt, Json, or_fail, update}

-- `TrustState`, a string: `unset` is the empty one.
pub data TrustState : Type 0 where
  unset tofu suspect blocked : TrustState
  other : Bytes → TrustState

pub record Peer : Type 0 where
  pub node_id : Bytes
  pub public_key : Bytes
  pub endpoints : List Bytes
  pub trust_state : TrustState
  pub last_seen : Time

pub data StoreError : Type 0 where
  corrupt_peer key_changed marshal_failed put_failed : StoreError

-- A test of membership, the map `seen` of `mergeEndpoints`.
pub contains : List Bytes → Bytes → Bool
contains [] ep = false
contains (e ∷ es) ep = if eqb e ep then true else contains es ep

-- The second loop of `mergeEndpoints`; `seen` is not extended.
pub append_new : List Bytes → List Bytes → List Bytes → List Bytes
append_new seen result [] = result
append_new seen result (ep ∷ eps) =
    append_new seen (if contains seen ep then result else result ++ ep ∷ []) eps

pub merge_endpoints : List Bytes → List Bytes → List Bytes
unfolding append_new
merge_endpoints existing incoming = append_new existing existing incoming

abbrev pub or_tofu : TrustState → TrustState
or_tofu unset = tofu
or_tofu t = t

-- What `PutPeer` writes of a merged peer.
abbrev pub stamped : Time → Peer → Peer
stamped now p = record p { trust_state = or_tofu p.trust_state; last_seen = now }

-- The stored peer `prev` against the new one: a changed key is refused, endpoints are merged.
pub check_known : Peer → Option Peer → Result StoreError Peer
check_known p none = err corrupt_peer
check_known p (some prev) =
    if not (eqb prev.public_key p.public_key)
    then err key_changed
    else ok (record p { endpoints = merge_endpoints prev.endpoints p.endpoints })

-- `b.Get(k) != nil`
abbrev pub present : Option Bytes → Bool
present none = false
present (some raw) = true

abbrev pub parsed : Option Peer → Result StoreError (Option Peer)
parsed none = err corrupt_peer
parsed (some p) = ok (some p)

module _ (bolt : Bolt) (json : Json Peer) where
  open bolt use {Bucket, pairs, get, put}
  open json use {marshal, unmarshal}

  -- The two buckets.
  pub record Store : Type 0 where
    pub peers : Bucket
    pub nonces : Bucket

  -- The peer to store, given what is stored under its id.
  pub merged : Peer → Option Bytes → Result StoreError Peer
  unfolding check_known
  merged p none = ok p
  merged p (some raw) = check_known p (unmarshal raw)

  pub write_peer : Bytes → Peer → Store → Result StoreError Store
  write_peer key p s = do
    raw ← or_fail (marshal p) marshal_failed
    peers ← or_fail (put s.peers key raw) put_failed
    ok (record s { peers = peers })

  -- The transaction of `PutPeer` at the time `now`, and `PutPeer`.
  pub put_peer_tx : Peer → Time → Store → Result StoreError Store
  unfolding merged write_peer
  put_peer_tx p now s = do
    m ← merged p (get s.peers p.node_id)
    write_peer p.node_id (stamped now m) s

  pub put_peer : Peer → Time → Store → Result StoreError (Unit {0}) × Store
  unfolding put_peer_tx
  put_peer p now s = update s (put_peer_tx p now s)

  -- What a read under a key gives: no peer, a peer, or the error of `json.Unmarshal`.
  abbrev pub decoded : Option Bytes → Result StoreError (Option Peer)
  decoded none = ok none
  decoded (some raw) = parsed (unmarshal raw)

  -- `GetPeer`
  pub get_peer : Store → Bytes → Result StoreError (Option Peer)
  get_peer s node_id = decoded (get s.peers node_id)

  -- `ListPeers`, over the pairs that `ForEach` visits.
  unfoldable pub collect : List (Bytes × Bytes) → Result StoreError (List Peer)
  collect [] = ok []
  collect ((k, raw) ∷ rest) = do
    p ← or_fail (unmarshal raw) corrupt_peer
    ps ← collect rest
    ok (p ∷ ps)

  unfoldable pub list_peers : Store → Result StoreError (List Peer)
  unfolding collect
  list_peers s = collect (pairs s.peers)

  pub touch : Bytes → Time → Option Peer → Store → Result StoreError Store
  unfolding write_peer
  touch node_id now none s = ok s
  touch node_id now (some p) s = write_peer node_id (record p { last_seen = now }) s

  -- The transaction of `UpdateLastSeen` at the time `now`, and `UpdateLastSeen`.
  pub update_last_seen_tx : Bytes → Time → Store → Result StoreError Store
  unfolding touch
  update_last_seen_tx node_id now s = do p ← decoded (get s.peers node_id); touch node_id now p s

  pub update_last_seen : Bytes → Time → Store → Result StoreError (Unit {0}) × Store
  unfolding update_last_seen_tx
  update_last_seen node_id now s = update s (update_last_seen_tx node_id now s)

  -- `HasNonce`
  unfoldable pub has_nonce : Store → Bytes → Bool
  has_nonce s nonce = present (get s.nonces nonce)

  -- `SaveNonce`
  unfoldable pub save_nonce_tx : Bytes → Store → Result StoreError Store
  save_nonce_tx nonce s = do
    nonces ← or_fail (put s.nonces nonce []) put_failed
    ok (record s { nonces = nonces })

  unfoldable pub save_nonce : Bytes → Store → Result StoreError (Unit {0}) × Store
  unfolding save_nonce_tx
  save_nonce nonce s = update s (save_nonce_tx nonce s)
