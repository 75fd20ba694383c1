-- ===== src/Tui/Model/Tests.antt =====
-- A session of the interface, and the theorems at it.
use kin.Base.{◌+◌, ◌≡◌, refl, Bool, true, false, none, some, List, [], ◌∷◌, ◌++◌, Bytes, eqb}
use kin.Tui.Files
use kin.Tui.Files.{FileInfo, new_catalog_model}
use kin.Tui.Peers
use kin.Tui.Peers.{PeerInfo}
use kin.Tui.Progress.{any_active, has_active, add_transfer, mark_first, mark_done, toggle}
use kin.Tui.Overlays.{
  Global, quit, help, join, escape, enter, KeyMsg, response, TextInput, update_overlay, do_join,
  submit, update_join, join_overlay, key_input, new_join_overlay, update_invite, update_detail,
  update_confirm, forward, invite_input, invite_overlay, new_invite_overlay, detail_overlay,
  confirm_overlay, run_action,
}
use kin.Tui.Model.{
  Msg, window_size, key_msg, daemon_event, peer_online, new_model, init, recalc_layout, update,
  handle_key, panel_key, to_overlay, handle_event,
}
use kin.Tui.Model.Waits.{waits, run, issued, events, waits-init-issued}
use kin.Tui.Model.Sound.{IsSound, run-new_model}

-- A text input that is its text.
abbrev plain : TextInput
plain = record { Field = Bytes; fresh = []; value = λ t. t; update = λ msg t. (b'k' ∷ t, false) }

abbrev is_global : Global → Global → Bool
is_global quit quit = true
is_global help help = true
is_global join join = true
is_global escape escape = true
is_global _ _ = false

abbrev pressing : Global → KeyMsg
pressing g = record {
  ctrl_c = false;
  enter_type = false;
  text = [];
  matches = is_global g;
  files = record { binding = kin.Tui.Files.unbound; is_backspace = false; runes = none };
  peers = kin.Tui.Peers.other_key;
}

abbrev ann : PeerInfo
ann = record { node_id = 1 ∷ []; online = true }

-- A peer comes, the join overlay is opened, and q is typed into it.
abbrev session : List Msg
session =
    window_size 100 30
    ∷ daemon_event (peer_online (some ann))
    ∷ key_msg (pressing join)
    ∷ key_msg (pressing quit)
    ∷ []

abbrev short : PeerInfo → Bytes
short p = p.node_id

abbrev no_search : Bytes → Bytes → Bool
no_search s t = false

abbrev lower : Bytes → Bytes
lower s = s

typed :
    (run plain lower no_search short session (new_model lower no_search plain)).overlay
    ≡ some
        (join_overlay (record { input = b'k' ∷ []; error = none; success = []; loading = false }))
unfolding run update recalc_layout handle_event handle_key panel_key to_overlay update_overlay
    update_join forward new_join_overlay new_model eqb
typed = refl

waits-init-issued_example :
    waits (
      init lower no_search plain
      ++ issued plain lower no_search short session (new_model lower no_search plain))
    ≡ 1 + events session
waits-init-issued_example =
    waits-init-issued plain lower no_search short session (new_model lower no_search plain)

run-new_model_example :
    IsSound lower no_search plain
      (run plain lower no_search short session (new_model lower no_search plain))
run-new_model_example = run-new_model lower no_search plain short session

abbrev file : FileInfo
file = record { file_id = 5 ∷ []; name = []; is_local = false }

-- A file that is downloaded twice: both downloads end, and one is shown as active for ever.
twice :
    has_active (
      mark_done (5 ∷ []) none (
        mark_done
          (5 ∷ [])
          none
          (add_transfer file (add_transfer file (record { transfers = []; visible = false })))))
    ≡ true
unfolding has_active any_active mark_done mark_first add_transfer eqb
twice = refl

toggle_run : (toggle (record { transfers = []; visible = false })).visible ≡ true
unfolding toggle
toggle_run = refl

invited :
    update_overlay plain (invite_input (response (7 ∷ []))) (new_invite_overlay plain)
    ≡ (some (invite_overlay none (7 ∷ []) false), [])
unfolding update_overlay update_invite new_invite_overlay
invited = refl

-- The token is sent; an empty one is not.
submitted :
    (update_overlay plain
      (key_input (record (pressing enter) { enter_type = true }))
      (join_overlay (record { input = 7 ∷ []; error = none; success = []; loading = false }))).1
    ≡ do_join (7 ∷ []) ∷ []
unfolding update_overlay update_join submit eqb
submitted = refl

confirmed :
    update_overlay plain
      (key_input (record (pressing enter) { text = b'y' ∷ [] }))
      (confirm_overlay [])
    ≡ (none, run_action ∷ [])
unfolding update_overlay update_confirm eqb
confirmed = refl

closed : update_overlay plain (key_input (pressing escape)) (detail_overlay ann) ≡ (none, [])
unfolding update_overlay update_detail
closed = refl
