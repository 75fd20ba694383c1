-- ===== src/Tui/Peers.antt =====
-- internal/tui/peer_model.go: the list of peers, its cursor and its viewport.
pub mod Cursor
mod Tests
use kin.Base.{
  ℕ, suc, ◌+◌, ◌-◌, ◌≡◌, Bool, true, false, Option, none, some, List, [], ◌∷◌, ltb, leb, ◌==◌,
  if◌then◌else◌, length, get_elem?, min, max, Bytes, eqb,
}

-- Of `daemon.PeerInfo` what the model reads: the id, and whether the peer is online.
pub record PeerInfo : Type 0 where
  pub node_id : Bytes
  pub online : Bool

-- `PeerModel`. Cursor and offset are never below 0; a height below 0 does what 0 does.
pub record PeerModel : Type 0 where
  pub peers : List PeerInfo
  pub cursor : ℕ
  pub offset : ℕ
  pub height : ℕ

pub clamp_cursor : PeerModel → PeerModel
clamp_cursor m =
    let n = length m.peers in
    if n == 0 then record m { cursor = 0 } else record m { cursor = min m.cursor (n - 1) }

-- The two tests of `scrollToCursor`, the second on what the first has left.
pub scroll_up : PeerModel → PeerModel
scroll_up m = if ltb m.cursor m.offset then record m { offset = m.cursor } else m

pub scroll_down : PeerModel → PeerModel
scroll_down m =
    if leb (m.offset + m.height) m.cursor then record m { offset = suc m.cursor - m.height } else m

pub scroll_to_cursor : PeerModel → PeerModel
unfolding scroll_up scroll_down
scroll_to_cursor m = if m.height == 0 then m else scroll_down (scroll_up m)

-- The keys that `Update` looks for, and any other message.
pub data Key : Type 0 where
  down up first last other_key : Key

-- `Update`. The cursor after `up` at 0 is -1, which is clamped to 0.
pub key_update : Key → PeerModel → PeerModel
unfolding clamp_cursor scroll_to_cursor
key_update down m = scroll_to_cursor (clamp_cursor (record m { cursor = m.cursor + 1 }))
key_update up m = scroll_to_cursor (clamp_cursor (record m { cursor = m.cursor - 1 }))
key_update first m = scroll_to_cursor (record m { cursor = 0 })
key_update last m = scroll_to_cursor (record m { cursor = length m.peers - 1 })
key_update other_key m = m

-- `SetPeers`
pub set_peers : List PeerInfo → PeerModel → PeerModel
unfolding clamp_cursor
set_peers peers m = clamp_cursor (record m { peers = peers })

-- `SelectedPeer`
pub selected_peer : PeerModel → Option PeerInfo
selected_peer m = get_elem? m.peers m.cursor

-- The loop of `UpdatePeerOnline`, and what follows it.
pub put_online : PeerInfo → List PeerInfo → List PeerInfo
put_online info [] = record info { online = true } ∷ []
put_online info (p ∷ ps) =
    if eqb p.node_id info.node_id then record p { online = true } ∷ ps else p ∷ put_online info ps

pub update_peer_online : PeerInfo → PeerModel → PeerModel
unfolding put_online
update_peer_online info m = record m { peers = put_online info m.peers }

-- The loop of `UpdatePeerOffline`.
pub put_offline : Bytes → List PeerInfo → List PeerInfo
put_offline id [] = []
put_offline id (p ∷ ps) =
    if eqb p.node_id id then record p { online = false } ∷ ps else p ∷ put_offline id ps

pub update_peer_offline : Bytes → PeerModel → PeerModel
unfolding put_offline
update_peer_offline id m = record m { peers = put_offline id m.peers }
