-- ===== src/Tui/Model/Sound.antt =====
-- The lists of the interface stay as they should be.
use kin.Base.{◌≡◌, refl, Bool, Option, none, some, List, [], ◌∷◌, arith, Bytes}
use kin.Base.Ints.{sub_ℕ}
use kin.Tui.Files.{selected_files}
use kin.Tui.Files.Shown.{
  IsShown, key_update-IsShown, set_files-IsShown, set_size-IsShown, new-IsShown,
}
use kin.Tui.Peers
use kin.Tui.Peers.{
  PeerInfo, PeerModel, selected_peer, set_peers, update_peer_online, update_peer_offline,
}
use kin.Tui.Peers.Cursor.{
  IsOnPeer, key_update-IsOnPeer, handle-IsOnPeer, listed, came, went, handle,
}
use kin.Tui.Progress.{ProgressModel}
use kin.Tui.Overlays.{
  KeyMsg, failure, response, nothing, Input, invite_input, join_input, Cmd, TextInput, Overlay,
}
use kin.Tui.Model.{
  Notice, peer_online, peer_offline, catalog_updated, other_event, Msg, window_size, key_msg,
  status_result, peers_result, catalog_result, daemon_event, daemon_disconnected, invite_result,
  join_result, download_result, other_msg, Model, new_model, recalc_layout, to_overlay, start_each,
  shown_if, start_downloads, open_detail, open_confirm, to_panel, panel_key, free_key, handle_key,
  handle_event, update, panel_catalog, panel_peers, Panel,
}
use kin.Tui.Model.Waits.{run}

module _ (to_lower : Bytes → Bytes) (contains : Bytes → Bytes → Bool) (ti : TextInput) where
  abbrev Interface : Type 0
  Interface = Model to_lower contains ti

  -- What is seen of the files is what the search finds, and both cursors are on their lists.
  abbrev pub IsSound : Interface → Type 0
  IsSound m = IsShown to_lower contains m.catalog × IsOnPeer m.peers

  -- What a step has left alone.
  abbrev Keeps : Interface → Interface → Type 0
  Keeps m m' = (m'.catalog ≡ m.catalog) × (m'.peers ≡ m.peers) × (m'.quitting ≡ m.quitting)

  pub to_overlay-Keeps :
      (msg : Input) (o : Option (Overlay ti)) (m : Interface)
      → Keeps m (to_overlay to_lower contains ti msg o m).0
  unfolding to_overlay
  to_overlay-Keeps msg none m = (refl, refl, refl)
  to_overlay-Keeps msg (some o) m = (refl, refl, refl)

  shown_if-Keeps :
      (out : ProgressModel × List Cmd) (m : Interface)
      → Keeps m (shown_if to_lower contains ti out m).0
  shown_if-Keeps (p, []) m = (refl, refl, refl)
  shown_if-Keeps (p, c ∷ cs) m = (refl, refl, refl)

  pub start_downloads-Keeps : (m : Interface) → Keeps m (start_downloads to_lower contains ti m).0
  unfolding start_downloads
  start_downloads-Keeps m =
      shown_if-Keeps (start_each to_lower contains ti (selected_files m.catalog) m.progress) m

  pub open_detail-Keeps :
      (k : KeyMsg) (p : Option PeerInfo) (m : Interface)
      → Keeps m (open_detail to_lower contains ti k p m)
  unfolding open_detail
  open_detail-Keeps k none m = (refl, refl, refl)
  open_detail-Keeps k (some p) m = ground arith

  pub open_confirm-Keeps :
      (short : PeerInfo → Bytes) (k : KeyMsg) (p : Option PeerInfo) (m : Interface)
      → Keeps m (open_confirm to_lower contains ti short k p m)
  unfolding open_confirm
  open_confirm-Keeps short k none m = (refl, refl, refl)
  open_confirm-Keeps short k (some p) m = ground arith

  Keeps-IsSound : (m m' : Interface) → Keeps m m' → IsSound m → IsSound m'
  Keeps-IsSound m m' (c, p, q) h = rw (c, p) h

  to_panel-IsSound :
      (short : PeerInfo → Bytes) (k : KeyMsg) (f : Panel) (m : Interface)
      → IsSound m
      → IsSound (to_panel to_lower contains ti short k f m)
  unfolding to_panel
  to_panel-IsSound short k panel_catalog m (c, p) =
      (key_update-IsShown to_lower contains k.files m.catalog c, p)
  to_panel-IsSound short k panel_peers m (c, p) =
      let ps = kin.Tui.Peers.key_update k.peers m.peers in
      let m1 : Interface = record m { peers = ps } in
      let m2 : Interface = open_detail to_lower contains ti k (selected_peer ps) m1 in
      let m3 : Interface = open_confirm to_lower contains ti short k (selected_peer ps) m2 in
      Keeps-IsSound m2 m3 (open_confirm-Keeps short k (selected_peer ps) m2) (
        Keeps-IsSound m1 m2 (open_detail-Keeps k (selected_peer ps) m1)
          (c, key_update-IsOnPeer k.peers m.peers p))

  panel_key-IsSound :
      (short : PeerInfo → Bytes) (k : KeyMsg) (m : Interface)
      → IsSound m
      → IsSound (panel_key to_lower contains ti short k m).0
  unfolding panel_key
  panel_key-IsSound short k m h = ground (
    arith,
    to_panel-IsSound short k m.focus m h,
    Keeps-IsSound m (start_downloads to_lower contains ti m).0 (start_downloads-Keeps m) h,
  )

  free_key-IsSound :
      (short : PeerInfo → Bytes) (k : KeyMsg) (o : Option (Overlay ti)) (m : Interface)
      → IsSound m
      → IsSound (free_key to_lower contains ti short k o m).0
  unfolding to_overlay
  free_key-IsSound short k none m h = panel_key-IsSound short k m h
  free_key-IsSound short k (some o) m h = h

  handle_key-IsSound :
      (short : PeerInfo → Bytes) (k : KeyMsg) (m : Interface)
      → IsSound m
      → IsSound (handle_key to_lower contains ti short k m).0
  unfolding handle_key
  handle_key-IsSound short k m h = ground (arith, free_key-IsSound short k m.overlay m h)

  handle_event-IsSound :
      (ev : Notice) (m : Interface) → IsSound m → IsSound (handle_event to_lower contains ti ev m).0
  unfolding handle_event handle
  handle_event-IsSound (peer_online none) m h = h
  handle_event-IsSound (peer_online (some info)) m (c, p) =
      (c, handle-IsOnPeer (came info) m.peers p)
  handle_event-IsSound (peer_offline none) m h = h
  handle_event-IsSound (peer_offline (some id)) m (c, p) = (c, handle-IsOnPeer (went id) m.peers p)
  handle_event-IsSound catalog_updated m h = h
  handle_event-IsSound other_event m h = h

  recalc_layout-IsSound :
      (m : Interface) → IsSound m → IsSound (recalc_layout to_lower contains ti m)
  unfolding recalc_layout
  recalc_layout-IsSound m (c, p) =
      (set_size-IsShown to_lower contains (sub_ℕ m.height 3) m.catalog c, p)

  update-IsSound :
      (short : PeerInfo → Bytes) (msg : Msg) (m : Interface)
      → IsSound m
      → IsSound (update to_lower contains ti short msg m).0
  unfolding update handle to_overlay
  update-IsSound short (window_size w h) m s =
      recalc_layout-IsSound (record m { width = w; height = h }) s
  update-IsSound short (key_msg k) m s = handle_key-IsSound short k m s
  update-IsSound short (status_result (failure e)) m s = s
  update-IsSound short (status_result (response r)) m s = s
  update-IsSound short (status_result nothing) m s = s
  update-IsSound short (peers_result (failure e)) m s = s
  update-IsSound short (peers_result (response ps)) m (c, p) =
      (c, handle-IsOnPeer (listed ps) m.peers p)
  update-IsSound short (peers_result nothing) m s = s
  update-IsSound short (catalog_result (failure e)) m s = s
  update-IsSound short (catalog_result (response fs)) m (c, p) =
      (set_files-IsShown to_lower contains fs m.catalog, p)
  update-IsSound short (catalog_result nothing) m s = s
  update-IsSound short (daemon_event ev) m s = handle_event-IsSound ev m s
  update-IsSound short daemon_disconnected m s = s
  update-IsSound short (invite_result out) m s =
      Keeps-IsSound m (to_overlay to_lower contains ti (invite_input out) m.overlay m).0
        (to_overlay-Keeps (invite_input out) m.overlay m) s
  update-IsSound short (join_result out) m s =
      Keeps-IsSound m (to_overlay to_lower contains ti (join_input out) m.overlay m).0
        (to_overlay-Keeps (join_input out) m.overlay m) s
  update-IsSound short (download_result id e) m s = s
  update-IsSound short other_msg m s = s

  run-IsSound :
      (short : PeerInfo → Bytes) (msgs : List Msg) (m : Interface)
      → IsSound m
      → IsSound (run ti to_lower contains short msgs m)
  unfolding run
  run-IsSound short [] m h = h
  run-IsSound short (msg ∷ msgs) m h =
      run-IsSound short msgs (update to_lower contains ti short msg m).0
        (update-IsSound short msg m h)

  -- Whatever keys are pressed, results come and events arrive from the new model on: the files to be
  -- seen are those that filtering the list anew gives, and the cursors are on the files that are seen
  -- and on the peers, or at 0 where there is none.
  pub run-new_model :
      (short : PeerInfo → Bytes) (msgs : List Msg)
      → IsSound (run ti to_lower contains short msgs (new_model to_lower contains ti))
  unfolding new_model
  run-new_model short msgs =
      run-IsSound short msgs (new_model to_lower contains ti)
        (new-IsShown to_lower contains, omega arith)
