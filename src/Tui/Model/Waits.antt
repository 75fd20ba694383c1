-- ===== src/Tui/Model/Waits.antt =====
-- The interface waits for the daemon's next event exactly once, and quits only when it is told to.
use kin.Base.{ℕ, ◌+◌, ◌≡◌, refl, Bool, Option, none, some, List, [], ◌∷◌, ◌++◌, arith, Bytes, ◌∙◌}
use kin.Tui.Files.{FileInfo, selected_files}
use kin.Tui.Peers.{PeerInfo}
use kin.Tui.Progress.{ProgressModel, add_transfer}
use kin.Tui.Overlays.{
  KeyMsg, failure, response, nothing, Input, key_input, invite_input, join_input, Cmd, fetch_status,
  fetch_peers, fetch_catalog, wait_for_event, quit_program, do_invite, run_action, text_command,
  do_join, do_download, TextInput, Join, Overlay, invite_overlay, join_overlay, confirm_overlay,
  detail_overlay, help_overlay, forward, submit, update_join, update_confirm, update_overlay,
}
use kin.Tui.Model.{
  Notice, peer_online, peer_offline, catalog_updated, other_event, Msg, window_size, key_msg,
  status_result, peers_result, catalog_result, daemon_event, daemon_disconnected, invite_result,
  join_result, download_result, other_msg, Model, init, to_overlay, start_each, shown_if,
  start_downloads, panel_key, free_key, handle_key, handle_event, update,
}

-- How many of the commands wait for an event.
abbrev pub is_wait : Cmd → ℕ
is_wait wait_for_event = 1
is_wait fetch_status = 0
is_wait fetch_peers = 0
is_wait fetch_catalog = 0
is_wait quit_program = 0
is_wait do_invite = 0
is_wait run_action = 0
is_wait text_command = 0
is_wait (do_join token) = 0
is_wait (do_download id) = 0

unfoldable pub waits : List Cmd → ℕ
waits [] = 0
waits (c ∷ cs) = is_wait c + waits cs

-- Whether a message is an event of the daemon.
abbrev pub is_event : Msg → ℕ
is_event (daemon_event ev) = 1
is_event (window_size w h) = 0
is_event (key_msg k) = 0
is_event (status_result out) = 0
is_event (peers_result out) = 0
is_event (catalog_result out) = 0
is_event daemon_disconnected = 0
is_event (invite_result out) = 0
is_event (join_result out) = 0
is_event (download_result id e) = 0
is_event other_msg = 0

unfoldable pub events : List Msg → ℕ
events [] = 0
events (msg ∷ msgs) = is_event msg + events msgs

module _ (ti : TextInput) where
  waits-forward : (msg : Input) (o : Join ti) → waits (forward ti msg o).1 ≡ 0
  unfolding forward waits
  waits-forward msg o = ground arith

  waits-submit : (o : Join ti) → waits (submit ti o).1 ≡ 0
  unfolding submit waits
  waits-submit o = ground arith

  waits-update_join : (msg : Input) (o : Join ti) → waits (update_join ti msg o).1 ≡ 0
  unfolding update_join waits
  waits-update_join (key_input k) o = ground (arith, waits-forward (key_input k) o, waits-submit o)
  waits-update_join (join_input (failure e)) o = refl
  waits-update_join (join_input (response p)) o = refl
  waits-update_join (join_input nothing) o = refl
  waits-update_join (invite_input out) o = waits-forward (invite_input out) o

  waits-update_confirm : (msg : Input) (s : Bytes) → waits (update_confirm ti msg s).1 ≡ 0
  unfolding update_confirm waits
  waits-update_confirm (key_input k) s = ground arith
  waits-update_confirm (invite_input out) s = refl
  waits-update_confirm (join_input out) s = refl

  waits-update_overlay : (msg : Input) (o : Overlay ti) → waits (update_overlay ti msg o).1 ≡ 0
  unfolding update_overlay waits
  waits-update_overlay msg (invite_overlay e t l) = refl
  waits-update_overlay msg (join_overlay o) = waits-update_join msg o
  waits-update_overlay msg (confirm_overlay s) = waits-update_confirm msg s
  waits-update_overlay msg (detail_overlay p) = refl
  waits-update_overlay msg help_overlay = refl

  module _ (to_lower : Bytes → Bytes) (contains : Bytes → Bytes → Bool) where
    abbrev Interface : Type 0
    Interface = Model to_lower contains ti

    waits-to_overlay :
        (msg : Input) (o : Option (Overlay ti)) (m : Interface)
        → waits (to_overlay to_lower contains ti msg o m).1 ≡ 0
    unfolding to_overlay waits
    waits-to_overlay msg none m = refl
    waits-to_overlay msg (some o) m = waits-update_overlay msg o

    waits-start_each :
        (fs : List FileInfo) (p : ProgressModel)
        → waits (start_each to_lower contains ti fs p).1 ≡ 0
    unfolding start_each waits
    waits-start_each [] p = refl
    waits-start_each (f ∷ fs) p =
        ground (arith, waits-start_each fs p, waits-start_each fs (add_transfer f p))

    waits-shown_if :
        (out : ProgressModel × List Cmd) (m : Interface)
        → waits (shown_if to_lower contains ti out m).1 ≡ waits out.1
    waits-shown_if (p, []) m = refl
    waits-shown_if (p, c ∷ cs) m = refl

    waits-start_downloads : (m : Interface) → waits (start_downloads to_lower contains ti m).1 ≡ 0
    unfolding start_downloads
    waits-start_downloads m =
        waits-shown_if (start_each to_lower contains ti (selected_files m.catalog) m.progress) m
        ∙ waits-start_each (selected_files m.catalog) m.progress

    waits-panel_key :
        (short : PeerInfo → Bytes) (k : KeyMsg) (m : Interface)
        → waits (panel_key to_lower contains ti short k m).1 ≡ 0
    unfolding panel_key waits
    waits-panel_key short k m = ground (arith, waits-start_downloads m)

    waits-free_key :
        (short : PeerInfo → Bytes) (k : KeyMsg) (o : Option (Overlay ti)) (m : Interface)
        → waits (free_key to_lower contains ti short k o m).1 ≡ 0
    waits-free_key short k none m = waits-panel_key short k m
    waits-free_key short k (some o) m = waits-to_overlay (key_input k) (some o) m

    waits-handle_key :
        (short : PeerInfo → Bytes) (k : KeyMsg) (m : Interface)
        → waits (handle_key to_lower contains ti short k m).1 ≡ 0
    unfolding handle_key waits
    waits-handle_key short k m = ground (arith, waits-free_key short k m.overlay m)

    waits-handle_event :
        (ev : Notice) (m : Interface) → waits (handle_event to_lower contains ti ev m).1 ≡ 1
    unfolding handle_event waits
    waits-handle_event (peer_online none) m = refl
    waits-handle_event (peer_online (some info)) m = refl
    waits-handle_event (peer_offline none) m = refl
    waits-handle_event (peer_offline (some id)) m = refl
    waits-handle_event catalog_updated m = refl
    waits-handle_event other_event m = refl

    waits-update :
        (short : PeerInfo → Bytes) (msg : Msg) (m : Interface)
        → waits (update to_lower contains ti short msg m).1 ≡ is_event msg
    unfolding update waits
    waits-update short (window_size w h) m = refl
    waits-update short (key_msg k) m = waits-handle_key short k m
    waits-update short (status_result (failure e)) m = refl
    waits-update short (status_result (response r)) m = refl
    waits-update short (status_result nothing) m = refl
    waits-update short (peers_result (failure e)) m = refl
    waits-update short (peers_result (response ps)) m = refl
    waits-update short (peers_result nothing) m = refl
    waits-update short (catalog_result (failure e)) m = refl
    waits-update short (catalog_result (response fs)) m = refl
    waits-update short (catalog_result nothing) m = refl
    waits-update short (daemon_event ev) m = waits-handle_event ev m
    waits-update short daemon_disconnected m = refl
    waits-update short (invite_result out) m = waits-to_overlay (invite_input out) m.overlay m
    waits-update short (join_result out) m = waits-to_overlay (join_input out) m.overlay m
    waits-update short (download_result id none) m = refl
    waits-update short (download_result id (some e)) m = refl
    waits-update short other_msg m = refl

    -- Messages one after the other: the model, and the commands.
    unfoldable pub run : (PeerInfo → Bytes) → List Msg → Interface → Interface
    run short [] m = m
    run short (msg ∷ msgs) m = run short msgs (update to_lower contains ti short msg m).0

    unfoldable pub issued : (PeerInfo → Bytes) → List Msg → Interface → List Cmd
    issued short [] m = []
    issued short (msg ∷ msgs) m =
        (update to_lower contains ti short msg m).1
        ++ issued short msgs (update to_lower contains ti short msg m).0

    waits-append : (cs ds : List Cmd) → waits (cs ++ ds) ≡ waits cs + waits ds
    unfolding waits
    waits-append [] ds = omega arith
    waits-append (c ∷ cs) ds = omega (arith, waits-append cs ds)

    waits-issued :
        (short : PeerInfo → Bytes) (msgs : List Msg) (m : Interface)
        → waits (issued short msgs m) ≡ events msgs
    unfolding issued events waits
    waits-issued short [] m = refl
    waits-issued short (msg ∷ msgs) m = omega (
      arith,
      waits-append (update to_lower contains ti short msg m).1
          (issued short msgs (update to_lower contains ti short msg m).0),
      waits-update short msg m,
      waits-issued short msgs (update to_lower contains ti short msg m).0,
    )

    -- Whatever the messages, in whatever order: the commands that start the interface and those that
    -- the messages issue wait for exactly one event more than the interface was given.
    pub waits-init-issued :
        (short : PeerInfo → Bytes) (msgs : List Msg) (m : Interface)
        → waits (init to_lower contains ti ++ issued short msgs m) ≡ 1 + events msgs
    unfolding init waits
    waits-init-issued short msgs m = omega (arith, waits-issued short msgs m)
