-- ===== src/Tui/Model.antt =====
-- internal/tui/model.go and statusbar.go: the interface as a whole.
pub mod Waits
pub mod Sound
pub mod Quits
mod Tests
use kin.Base.{
  ℕ, ◌≡◌, Bool, true, false, not, ◌&&◌, Option, none, some, List, [], ◌∷◌, ◌++◌, if◌then◌else◌,
  length, Bytes,
}
use kin.Base.Ints.{ℤ, pos_part, sub_ℕ}
use kin.Daemon.{StatusResponse}
use kin.Tui.Files
use kin.Tui.Files.{FileInfo, CatalogModel, new_catalog_model, set_files, set_size, selected_files}
use kin.Tui.Peers
use kin.Tui.Peers.{
  PeerInfo, PeerModel, set_peers, update_peer_online, update_peer_offline, selected_peer,
}
use kin.Tui.Progress.{Failure, disconnected, ProgressModel, toggle, add_transfer, mark_done}
use kin.Tui.Overlays.{
  Global, quit, tab, help, progress, download, invite, join, enter, disconnect, KeyMsg, Outcome,
  failure, response, nothing, Input, key_input, invite_input, join_input, Cmd, fetch_status,
  fetch_peers, fetch_catalog, wait_for_event, quit_program, do_invite, do_download, TextInput,
  Overlay, confirm_overlay, detail_overlay, help_overlay, new_invite_overlay, new_join_overlay,
  update_overlay,
}

-- `StatusBarModel`, less the width.
pub record StatusBarModel : Type 0 where
  pub node_id : Bytes
  pub peer_count : ℕ
  pub relay_addr : Bytes
  pub relay_online : Bool

-- `SetStatus`
pub set_status : StatusResponse → StatusBarModel → StatusBarModel
set_status r s = record {
  node_id = r.node_id_short;
  peer_count = r.peer_count;
  relay_addr = r.relay_addr;
  relay_online = r.relay_online;
}

pub data Panel : Type 0 where
  panel_catalog panel_peers : Panel

-- An event of the daemon, its data decoded; `none` is data that cannot be decoded.
pub data Notice : Type 0 where
  peer_online : Option PeerInfo → Notice
  peer_offline : Option Bytes → Notice
  catalog_updated other_event : Notice

-- The messages of `Update`.
pub data Msg : Type 0 where
  window_size : ℕ → ℕ → Msg
  key_msg : KeyMsg → Msg
  status_result : Outcome StatusResponse → Msg
  peers_result : Outcome (List PeerInfo) → Msg
  catalog_result : Outcome (List FileInfo) → Msg
  daemon_event : Notice → Msg
  daemon_disconnected : Msg
  invite_result join_result : Outcome Bytes → Msg
  download_result : Bytes → Option Failure → Msg
  other_msg : Msg

-- "Remove peer "
abbrev pub remove_prompt : Bytes
remove_prompt =
    b'R' ∷ b'e' ∷ b'm' ∷ b'o' ∷ b'v' ∷ b'e' ∷ b' ' ∷ b'p' ∷ b'e' ∷ b'e' ∷ b'r' ∷ b' ' ∷ []

module _ (to_lower : Bytes → Bytes) (contains : Bytes → Bytes → Bool) (ti : TextInput) where
  pub record Model : Type 0 where
    pub catalog : CatalogModel
    pub peers : PeerModel
    pub status : StatusBarModel
    pub progress : ProgressModel
    pub focus : Panel
    pub overlay : Option (Overlay ti)
    pub width : ℕ
    pub height : ℕ
    pub error : Option Failure
    pub quitting : Bool

  -- `NewModel`
  pub new_model : Model
  new_model = record {
    catalog = new_catalog_model;
    peers = record { peers = []; cursor = 0; offset = 0; height = 0 };
    status = record { node_id = []; peer_count = 0; relay_addr = []; relay_online = false };
    progress = record { transfers = []; visible = false };
    focus = panel_catalog;
    overlay = none;
    width = 0;
    height = 0;
    error = none;
    quitting = false;
  }

  -- `Init`
  pub init : List Cmd
  init = fetch_status ∷ fetch_peers ∷ fetch_catalog ∷ wait_for_event ∷ []

  -- `recalcLayout`, less the widths: the panels have the height but for the status bar's line and
  -- two more.
  pub recalc_layout : Model → Model
  recalc_layout m =
      let panel_h = sub_ℕ m.height 3 in
      record m {
        catalog = set_size panel_h m.catalog;
        peers = record m.peers { height = pos_part panel_h };
      }

  abbrev pub with_overlay : Option (Overlay ti) × List Cmd → Model → Model × List Cmd
  with_overlay (overlay, cmds) m = (record m { overlay = overlay }, cmds)

  -- `handleOverlayResult`, and the keys while an overlay is open.
  pub to_overlay : Input → Option (Overlay ti) → Model → Model × List Cmd
  unfolding update_overlay
  to_overlay msg none m = (m, [])
  to_overlay msg (some o) m = with_overlay (update_overlay ti msg o) m

  -- The loop of `startDownloads`.
  pub start_each : List FileInfo → ProgressModel → ProgressModel × List Cmd
  unfolding add_transfer
  start_each [] p = (p, [])
  start_each (f ∷ fs) p =
      let here = start_each fs p in
      let (p', cmds) = start_each fs (add_transfer f p) in
      if f.is_local then here else (p', do_download f.file_id ∷ cmds)

  abbrev pub shown_if : ProgressModel × List Cmd → Model → Model × List Cmd
  shown_if (p, []) m = (record m { progress = p }, [])
  shown_if (p, c ∷ cs) m = (record m { progress = record p { visible = true } }, c ∷ cs)

  pub start_downloads : Model → Model × List Cmd
  unfolding start_each
  start_downloads m = shown_if (start_each (selected_files m.catalog) m.progress) m

  -- The overlays on a peer: the second test comes after the first, and its overlay stays.
  pub open_detail : KeyMsg → Option PeerInfo → Model → Model
  open_detail k none m = m
  open_detail k (some p) m =
      if k.matches enter then record m { overlay = some (detail_overlay p) } else m

  pub open_confirm : (PeerInfo → Bytes) → KeyMsg → Option PeerInfo → Model → Model
  open_confirm short k none m = m
  open_confirm short k (some p) m =
      if k.matches disconnect
      then record m { overlay = some (confirm_overlay (remove_prompt ++ short p ++ b'?' ∷ [])) }
      else m

  -- The focused panel has the key. `short` is the peer's `NodeIDShort`.
  pub to_panel : (PeerInfo → Bytes) → KeyMsg → Panel → Model → Model
  unfolding open_detail open_confirm
  to_panel short k panel_catalog m = record m {
    catalog = kin.Tui.Files.key_update to_lower contains k.files m.catalog;
  }
  to_panel short k panel_peers m =
      let peers = kin.Tui.Peers.key_update k.peers m.peers in
      open_confirm short k (selected_peer peers)
        (open_detail k (selected_peer peers) (record m { peers = peers }))

  abbrev pub other_panel : Panel → Panel
  other_panel panel_catalog = panel_peers
  other_panel panel_peers = panel_catalog

  -- `handleKey` behind the test for an open overlay.
  pub panel_key : (PeerInfo → Bytes) → KeyMsg → Model → Model × List Cmd
  unfolding start_downloads to_panel toggle
  panel_key short k m =
      if k.matches quit && not m.catalog.searching
      then (record m { quitting = true }, quit_program ∷ [])
      else if k.matches tab
      then (record m { focus = other_panel m.focus }, [])
      else if k.matches help
      then (record m { overlay = some help_overlay }, [])
      else if k.matches progress
      then (record m { progress = toggle m.progress }, [])
      else if k.matches download
      then start_downloads m
      else if k.matches invite
      then (record m { overlay = some (new_invite_overlay ti) }, do_invite ∷ [])
      else if k.matches join
      then (record m { overlay = some (new_join_overlay ti) }, [])
      else (to_panel short k m.focus m, [])

  abbrev pub free_key : (PeerInfo → Bytes) → KeyMsg → Option (Overlay ti) → Model → Model × List Cmd
  free_key short k none m = panel_key short k m
  free_key short k (some o) m = to_overlay (key_input k) (some o) m

  -- `handleKey`
  pub handle_key : (PeerInfo → Bytes) → KeyMsg → Model → Model × List Cmd
  unfolding to_overlay panel_key
  handle_key short k m =
      if k.ctrl_c
      then (record m { quitting = true }, quit_program ∷ [])
      else free_key short k m.overlay m

  -- `handleEvent`
  pub handle_event : Notice → Model → Model × List Cmd
  handle_event (peer_online none) m = (m, wait_for_event ∷ [])
  handle_event (peer_online (some info)) m =
      let peers = update_peer_online info m.peers in
      (
        record m { peers = peers; status = record m.status { peer_count = length peers.peers } },
        wait_for_event ∷ [],
      )
  handle_event (peer_offline none) m = (m, wait_for_event ∷ [])
  handle_event (peer_offline (some id)) m =
      (record m { peers = update_peer_offline id m.peers }, wait_for_event ∷ [])
  handle_event catalog_updated m = (m, fetch_catalog ∷ wait_for_event ∷ [])
  handle_event other_event m = (m, wait_for_event ∷ [])

  abbrev pub refetch : Option Failure → List Cmd
  refetch none = fetch_catalog ∷ []
  refetch (some e) = []

  -- `Update`
  pub update : (PeerInfo → Bytes) → Msg → Model → Model × List Cmd
  unfolding recalc_layout handle_key set_status handle_event to_overlay mark_done
  update short (window_size w h) m = (recalc_layout (record m { width = w; height = h }), [])
  update short (key_msg k) m = handle_key short k m
  update short (status_result (failure e)) m = (record m { error = some e }, [])
  update short (status_result (response r)) m = (record m { status = set_status r m.status }, [])
  update short (status_result nothing) m = (m, [])
  update short (peers_result (failure e)) m = (record m { error = some e }, [])
  update short (peers_result (response ps)) m = (
    record m { peers = set_peers ps m.peers; status = record m.status { peer_count = length ps } },
    [],
  )
  update short (peers_result nothing) m = (m, [])
  update short (catalog_result (failure e)) m = (record m { error = some e }, [])
  update short (catalog_result (response fs)) m =
      (record m { catalog = set_files to_lower contains fs m.catalog }, [])
  update short (catalog_result nothing) m = (m, [])
  update short (daemon_event ev) m = handle_event ev m
  update short daemon_disconnected m = (record m { error = some disconnected }, [])
  update short (invite_result out) m = to_overlay (invite_input out) m.overlay m
  update short (join_result out) m = to_overlay (join_input out) m.overlay m
  update short (download_result id e) m =
      (record m { progress = mark_done id e m.progress }, refetch e)
  update short other_msg m = (m, [])
