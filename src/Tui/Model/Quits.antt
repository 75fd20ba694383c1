-- ===== src/Tui/Model/Quits.antt =====
-- The interface quits when it is told to, and only then.
use kin.Base.{◌≡◌, refl, ◌∙◌, Bool, true, false, not, ◌&&◌, ◌||◌, Option, none, some, arith, Bytes}
use kin.Tui.Peers
use kin.Tui.Peers.{
  PeerInfo, PeerModel, selected_peer, set_peers, update_peer_online, update_peer_offline,
}
use kin.Tui.Overlays.{
  quit, KeyMsg, failure, response, nothing, invite_input, join_input, TextInput, Overlay,
}
use kin.Tui.Model.{
  Notice, peer_online, peer_offline, catalog_updated, other_event, Msg, window_size, key_msg,
  status_result, peers_result, catalog_result, daemon_event, daemon_disconnected, invite_result,
  join_result, download_result, other_msg, Model, recalc_layout, to_overlay, open_detail, to_panel,
  panel_key, free_key, handle_key, handle_event, update, panel_catalog, panel_peers, Panel,
}
use kin.Tui.Model.Sound.{
  to_overlay-Keeps, start_downloads-Keeps, open_detail-Keeps, open_confirm-Keeps,
}

module _ (to_lower : Bytes → Bytes) (contains : Bytes → Bytes → Bool) (ti : TextInput) where
  abbrev Interface : Type 0
  Interface = Model to_lower contains ti

  -- Whether a message tells the interface to quit: Ctrl+C, or q where no overlay is open and no
  -- search is going on.
  abbrev pub no_overlay : Option (Overlay ti) → Bool
  no_overlay none = true
  no_overlay (some o) = false

  abbrev told : Msg → Interface → Bool
  told (key_msg k) m =
      k.ctrl_c || no_overlay m.overlay && (k.matches quit && not m.catalog.searching)
  told (window_size w h) m = false
  told (status_result out) m = false
  told (peers_result out) m = false
  told (catalog_result out) m = false
  told (daemon_event ev) m = false
  told daemon_disconnected m = false
  told (invite_result out) m = false
  told (join_result out) m = false
  told (download_result id e) m = false
  told other_msg m = false

  or_false : (b : Bool) → b ≡ (b || false)
  or_false true = refl
  or_false false = refl

  quitting-to_panel :
      (short : PeerInfo → Bytes) (k : KeyMsg) (f : Panel) (m : Interface)
      → (to_panel to_lower contains ti short k f m).quitting ≡ m.quitting
  unfolding to_panel
  quitting-to_panel short k panel_catalog m = refl
  quitting-to_panel short k panel_peers m =
      let ps = kin.Tui.Peers.key_update k.peers m.peers in
      let m1 : Interface = record m { peers = ps } in
      (open_confirm-Keeps to_lower contains ti short k (selected_peer ps)
        (open_detail to_lower contains ti k (selected_peer ps) m1)).2
      ∙ (open_detail-Keeps to_lower contains ti k (selected_peer ps) m1).2

  quitting-panel_key :
      (short : PeerInfo → Bytes) (k : KeyMsg) (m : Interface)
      → (panel_key to_lower contains ti short k m).0.quitting
        ≡ (m.quitting || (k.matches quit && not m.catalog.searching))
  unfolding panel_key
  quitting-panel_key short k m =
      ground (
        arith,
        quitting-to_panel short k m.focus m,
        (start_downloads-Keeps to_lower contains ti m).2,
      )

  quitting-free_key :
      (short : PeerInfo → Bytes) (k : KeyMsg) (o : Option (Overlay ti)) (m : Interface)
      → (free_key to_lower contains ti short k o m).0.quitting
        ≡ (m.quitting || (no_overlay o && (k.matches quit && not m.catalog.searching)))
  unfolding to_overlay
  quitting-free_key short k none m = quitting-panel_key short k m
  quitting-free_key short k (some o) m = or_false m.quitting

  quitting-handle_key :
      (short : PeerInfo → Bytes) (k : KeyMsg) (m : Interface)
      → (handle_key to_lower contains ti short k m).0.quitting ≡ (m.quitting || told (key_msg k) m)
  unfolding handle_key
  quitting-handle_key short k m = ground (arith, quitting-free_key short k m.overlay m)

  quitting-handle_event :
      (ev : Notice) (m : Interface)
      → (handle_event to_lower contains ti ev m).0.quitting ≡ m.quitting
  unfolding handle_event
  quitting-handle_event (peer_online none) m = refl
  quitting-handle_event (peer_online (some info)) m = refl
  quitting-handle_event (peer_offline none) m = refl
  quitting-handle_event (peer_offline (some id)) m = refl
  quitting-handle_event catalog_updated m = refl
  quitting-handle_event other_event m = refl

  -- A message makes the interface quit if it is Ctrl+C, or q where no overlay is open and no search
  -- is going on, and no other message does; an interface that quits goes on doing so.
  quitting-update :
      (short : PeerInfo → Bytes) (msg : Msg) (m : Interface)
      → (update to_lower contains ti short msg m).0.quitting ≡ (m.quitting || told msg m)
  unfolding update recalc_layout
  quitting-update short (window_size w h) m = or_false m.quitting
  quitting-update short (key_msg k) m = quitting-handle_key short k m
  quitting-update short (status_result (failure e)) m = or_false m.quitting
  quitting-update short (status_result (response r)) m = or_false m.quitting
  quitting-update short (status_result nothing) m = or_false m.quitting
  quitting-update short (peers_result (failure e)) m = or_false m.quitting
  quitting-update short (peers_result (response ps)) m = or_false m.quitting
  quitting-update short (peers_result nothing) m = or_false m.quitting
  quitting-update short (catalog_result (failure e)) m = or_false m.quitting
  quitting-update short (catalog_result (response fs)) m = or_false m.quitting
  quitting-update short (catalog_result nothing) m = or_false m.quitting
  quitting-update short (daemon_event ev) m = quitting-handle_event ev m ∙ or_false m.quitting
  quitting-update short daemon_disconnected m = or_false m.quitting
  quitting-update short (invite_result out) m =
      (to_overlay-Keeps to_lower contains ti (invite_input out) m.overlay m).2 ∙ or_false m.quitting
  quitting-update short (join_result out) m =
      (to_overlay-Keeps to_lower contains ti (join_input out) m.overlay m).2 ∙ or_false m.quitting
  quitting-update short (download_result id e) m = or_false m.quitting
  quitting-update short other_msg m = or_false m.quitting
