-- ===== src/Tui/Overlays.antt =====
-- internal/tui/overlay_*.go: the windows over the panels, which take all keys while one is open.
use kin.Base.{
  Bool, true, false, not, ◌&&◌, ◌||◌, Option, none, some, List, [], ◌∷◌, if◌then◌else◌, Bytes, eqb,
}
use kin.Tui.Files
use kin.Tui.Peers
use kin.Tui.Peers.{PeerInfo}
use kin.Tui.Progress.{Failure, empty_token}

-- The bindings of keys.go that are looked for outside the two lists.
pub data Global : Type 0 where
  quit tab help progress download invite join enter disconnect escape : Global

-- A key: whether it is Ctrl+C or of the type Enter, its text, the bindings that it matches, and
-- what it is to the lists.
pub record KeyMsg : Type 0 where
  pub ctrl_c : Bool
  pub enter_type : Bool
  pub text : Bytes
  pub matches : Global → Bool
  pub files : kin.Tui.Files.Key
  pub peers : kin.Tui.Peers.Key

-- What a call of the daemon gave: an error, a response, or neither.
pub data Outcome (A : Type 0) : Type 0 where
  failure : Failure → Outcome A
  response : A → Outcome A
  nothing : Outcome A

-- What an overlay is sent.
pub data Input : Type 0 where
  key_input : KeyMsg → Input
  invite_input join_input : Outcome Bytes → Input

-- A command that bubbletea runs for the interface; `text_command` is one of the text input.
pub data Cmd : Type 0 where
  fetch_status fetch_peers fetch_catalog wait_for_event quit_program : Cmd
  do_invite run_action text_command : Cmd
  do_join do_download : Bytes → Cmd

-- bubbles' text input: its text, and what it makes of a message.
pub record TextInput : Type 1 where
  pub Field : Type 0
  pub fresh : Field
  pub value : Field → Bytes
  pub update : Input → Field → Field × Bool

abbrev pub commands : Bool → List Cmd
commands b = if b then text_command ∷ [] else []

module _ (ti : TextInput) where
  open ti use {Field, fresh, value}

  -- `JoinOverlay`
  pub record Join : Type 0 where
    pub input : Field
    pub error : Option Failure
    pub success : Bytes
    pub loading : Bool

  pub data Overlay : Type 0 where
    invite_overlay : Option Failure → Bytes → Bool → Overlay
    join_overlay : Join → Overlay
    confirm_overlay : Bytes → Overlay
    detail_overlay : PeerInfo → Overlay
    help_overlay : Overlay

  -- `NewInviteOverlay` and `NewJoinOverlay`
  unfoldable pub new_invite_overlay : Overlay
  new_invite_overlay = invite_overlay none [] true

  unfoldable pub new_join_overlay : Overlay
  new_join_overlay =
      join_overlay (record { input = fresh; error = none; success = []; loading = false })

  -- `Update` of the invite overlay.
  unfoldable pub update_invite : Input → Option Failure → Bytes → Bool → Option Overlay
  update_invite (key_input k) e token loading =
      if k.matches escape then none else some (invite_overlay e token loading)
  update_invite (invite_input (failure e')) e token loading =
      some (invite_overlay (some e') token false)
  update_invite (invite_input (response t)) e token loading = some (invite_overlay e t false)
  update_invite (invite_input nothing) e token loading = some (invite_overlay e token false)
  update_invite (join_input out) e token loading = some (invite_overlay e token loading)

  -- The end of `Update` of the join overlay: the text input has the message, unless the overlay is
  -- waiting or done.
  unfoldable pub forward : Input → Join → Option Overlay × List Cmd
  forward msg o =
      let (input, busy) = ti.update msg o.input in
      if not o.loading && eqb o.success []
      then (some (join_overlay (record o { input = input })), commands busy)
      else (some (join_overlay o), [])

  -- The key of type Enter, while the overlay is not waiting.
  unfoldable pub submit : Join → Option Overlay × List Cmd
  submit o =
      if eqb (value o.input) []
      then (some (join_overlay (record o { error = some empty_token })), [])
      else (
        some (join_overlay (record o { loading = true; error = none })),
        do_join (value o.input) ∷ [],
      )

  unfoldable pub update_join : Input → Join → Option Overlay × List Cmd
  unfolding forward submit
  update_join (key_input k) o =
      if k.matches escape
      then (none, [])
      else if k.enter_type && not o.loading
      then submit o
      else forward (key_input k) o
  update_join (join_input (failure e)) o =
      (some (join_overlay (record o { loading = false; error = some e })), [])
  update_join (join_input (response peer)) o =
      (some (join_overlay (record o { loading = false; success = peer })), [])
  update_join (join_input nothing) o = (some (join_overlay (record o { loading = false })), [])
  update_join (invite_input out) o = forward (invite_input out) o

  abbrev pub is_yes : Bytes → Bool
  is_yes s = eqb s (b'y' ∷ []) || eqb s (b'Y' ∷ [])

  abbrev pub is_no : Bytes → Bool
  is_no s = eqb s (b'n' ∷ []) || eqb s (b'N' ∷ []) || eqb s (b'e' ∷ b's' ∷ b'c' ∷ [])

  unfoldable pub update_confirm : Input → Bytes → Option Overlay × List Cmd
  update_confirm (key_input k) message =
      if is_yes k.text
      then (none, run_action ∷ [])
      else if is_no k.text
      then (none, [])
      else (some (confirm_overlay message), [])
  update_confirm (invite_input out) message = (some (confirm_overlay message), [])
  update_confirm (join_input out) message = (some (confirm_overlay message), [])

  unfoldable pub update_detail : Input → PeerInfo → Option Overlay
  update_detail (key_input k) peer =
      if k.matches escape || k.matches enter then none else some (detail_overlay peer)
  update_detail (invite_input out) peer = some (detail_overlay peer)
  update_detail (join_input out) peer = some (detail_overlay peer)

  unfoldable pub update_help : Input → Option Overlay
  update_help (key_input k) = if k.matches escape || k.matches help then none else some help_overlay
  update_help (invite_input out) = some help_overlay
  update_help (join_input out) = some help_overlay

  -- `Update` of an `Overlay`.
  unfoldable pub update_overlay : Input → Overlay → Option Overlay × List Cmd
  unfolding update_invite update_join update_confirm update_detail update_help
  update_overlay msg (invite_overlay e token loading) = (update_invite msg e token loading, [])
  update_overlay msg (join_overlay o) = update_join msg o
  update_overlay msg (confirm_overlay message) = update_confirm msg message
  update_overlay msg (detail_overlay peer) = (update_detail msg peer, [])
  update_overlay msg help_overlay = (update_help msg, [])
