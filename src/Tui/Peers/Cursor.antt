-- ===== src/Tui/Peers/Cursor.antt =====
-- The cursor stays on a peer, and in the viewport.
use kin.Base.{
  ℕ, zero, suc, ◌+◌, ◌-◌, ◌≤◌, ◌<◌, ◌≡◌, refl, some, List, [], ◌∷◌, arith, length, get_elem?, Bytes,
}
use kin.Tui.Peers.{
  PeerInfo, PeerModel, clamp_cursor, scroll_up, scroll_down, scroll_to_cursor, Key, down, up, first,
  last, other_key, key_update, set_peers, put_online, update_peer_online, put_offline,
  update_peer_offline, selected_peer,
}

-- The cursor is on a peer, or at 0 where there is none.
abbrev pub IsOnPeer : PeerModel → Type 0
IsOnPeer m = m.cursor ≤ length m.peers - 1

scroll_to_cursor-IsOnPeer : (m : PeerModel) → IsOnPeer m → IsOnPeer (scroll_to_cursor m)
unfolding scroll_to_cursor scroll_up scroll_down
scroll_to_cursor-IsOnPeer m h = ground arith

clamp_cursor-IsOnPeer : (m : PeerModel) → IsOnPeer (clamp_cursor m)
unfolding clamp_cursor
clamp_cursor-IsOnPeer m = ground arith

pub key_update-IsOnPeer : (k : Key) (m : PeerModel) → IsOnPeer m → IsOnPeer (key_update k m)
unfolding key_update
key_update-IsOnPeer down m h =
    scroll_to_cursor-IsOnPeer _ (clamp_cursor-IsOnPeer (record m { cursor = m.cursor + 1 }))
key_update-IsOnPeer up m h =
    scroll_to_cursor-IsOnPeer _ (clamp_cursor-IsOnPeer (record m { cursor = m.cursor - 1 }))
key_update-IsOnPeer first m h = scroll_to_cursor-IsOnPeer (record m { cursor = 0 }) (omega arith)
key_update-IsOnPeer last m h =
    scroll_to_cursor-IsOnPeer (record m { cursor = length m.peers - 1 }) (omega arith)
key_update-IsOnPeer other_key m h = h

length-put_online : (info : PeerInfo) (ps : List PeerInfo) → length ps ≤ length (put_online info ps)
unfolding put_online
length-put_online info [] = omega arith
length-put_online info (p ∷ ps) = ground (arith, length-put_online info ps)

length-put_offline : (id : Bytes) (ps : List PeerInfo) → length (put_offline id ps) ≡ length ps
unfolding put_offline
length-put_offline id [] = refl
length-put_offline id (p ∷ ps) = ground (arith, length-put_offline id ps)

-- What the program does with the model.
pub data Event : Type 0 where
  pressed : Key → Event
  listed : List PeerInfo → Event
  came : PeerInfo → Event
  went : Bytes → Event

unfoldable pub handle : Event → PeerModel → PeerModel
unfolding key_update set_peers update_peer_online update_peer_offline
handle (pressed k) m = key_update k m
handle (listed ps) m = set_peers ps m
handle (came info) m = update_peer_online info m
handle (went id) m = update_peer_offline id m

unfoldable pub handle_all : List Event → PeerModel → PeerModel
unfolding handle
handle_all [] m = m
handle_all (e ∷ es) m = handle_all es (handle e m)

pub handle-IsOnPeer : (e : Event) (m : PeerModel) → IsOnPeer m → IsOnPeer (handle e m)
unfolding handle set_peers update_peer_online update_peer_offline
handle-IsOnPeer (pressed k) m h = key_update-IsOnPeer k m h
handle-IsOnPeer (listed ps) m h = clamp_cursor-IsOnPeer (record m { peers = ps })
handle-IsOnPeer (came info) m h = omega (arith, length-put_online info m.peers)
handle-IsOnPeer (went id) m h = omega (arith, length-put_offline id m.peers)

handle_all-IsOnPeer : (es : List Event) (m : PeerModel) → IsOnPeer m → IsOnPeer (handle_all es m)
unfolding handle_all
handle_all-IsOnPeer [] m h = h
handle_all-IsOnPeer (e ∷ es) m h = handle_all-IsOnPeer es (handle e m) (handle-IsOnPeer e m h)

get_elem?-some :
    (ps : List PeerInfo) (i : ℕ) → i < length ps → (p : PeerInfo) × (get_elem? ps i ≡ some p)
get_elem?-some [] i h = absurd (omega arith)
get_elem?-some (p ∷ ps) zero h = (p, refl)
get_elem?-some (p ∷ ps) (suc i) h = get_elem?-some ps i (omega arith)

-- Whatever keys are pressed and whatever peers come, go and are listed anew: where the list is not
-- empty, a peer is selected.
pub handle_all-selected :
    (es : List Event) (m : PeerModel)
    → IsOnPeer m
    → 1 ≤ length (handle_all es m).peers
    → (p : PeerInfo) × (selected_peer (handle_all es m) ≡ some p)
unfolding selected_peer
handle_all-selected es m h some_peer =
    get_elem?-some (handle_all es m).peers (handle_all es m).cursor
      (omega (arith, handle_all-IsOnPeer es m h))

-- A key leaves the cursor in the viewport, if it was there before and the viewport has at least
-- one line.
key_update-visible :
    (k : Key) (m : PeerModel)
    → 1 ≤ m.height
    → (m.offset ≤ m.cursor) × (m.cursor < m.offset + m.height)
    → ((key_update k m).offset ≤ (key_update k m).cursor)
      × ((key_update k m).cursor < (key_update k m).offset + m.height)
unfolding key_update scroll_to_cursor scroll_up scroll_down clamp_cursor
key_update-visible down m h v = ground arith
key_update-visible up m h v = ground arith
key_update-visible first m h v = ground arith
key_update-visible last m h v = ground arith
key_update-visible other_key m h v = v
