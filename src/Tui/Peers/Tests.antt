-- ===== src/Tui/Peers/Tests.antt =====
-- A list of two peers, and the theorems at concrete inputs.
use kin.Base.{◌≤◌, ◌≡◌, refl, true, false, length, [], ◌∷◌, arith, eqb}
use kin.Tui.Peers.{
  PeerInfo, PeerModel, down, last, key_update, set_peers, put_online, update_peer_online,
  put_offline, update_peer_offline, clamp_cursor, scroll_to_cursor, scroll_up, scroll_down,
}
use kin.Tui.Peers.Cursor.{handle, handle_all, went, pressed}

abbrev ann : PeerInfo
ann = record { node_id = 1 ∷ []; online = false }

abbrev bob : PeerInfo
bob = record { node_id = 2 ∷ []; online = true }

-- A viewport of one line on the first of two peers.
abbrev model : PeerModel
model = record { peers = ann ∷ bob ∷ []; cursor = 0; offset = 0; height = 1 }

online_run :
    ((update_peer_online ann model).peers ≡ record ann { online = true } ∷ bob ∷ [])
    × ((update_peer_offline (2 ∷ []) model).peers ≡ ann ∷ record bob { online = false } ∷ [])
unfolding update_peer_online put_online update_peer_offline put_offline eqb
online_run = (refl, refl)

-- A shorter list moves the cursor, but not the viewport.
set_peers_run :
    set_peers (ann ∷ []) (record model { cursor = 1; offset = 1 })
    ≡ record { peers = ann ∷ []; cursor = 0; offset = 1; height = 1 }
unfolding set_peers clamp_cursor
set_peers_run = refl

still_listed : 1 ≤ length (handle_all (pressed down ∷ went (2 ∷ []) ∷ []) model).peers
unfolding handle_all handle key_update scroll_to_cursor scroll_up scroll_down clamp_cursor
    update_peer_offline put_offline eqb
still_listed = ground arith

-- The last peer, with the viewport moved to it.
last_run : key_update last model ≡ record model { cursor = 1; offset = 1 }
unfolding key_update scroll_to_cursor scroll_up scroll_down
last_run = refl
