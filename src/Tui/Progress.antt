-- ===== src/Tui/Progress.antt =====
-- internal/tui/progress.go: the transfers that the interface shows.
use kin.Base.{Bool, true, false, not, Option, none, List, [], ◌∷◌, ◌++◌, if◌then◌else◌, Bytes, eqb}
use kin.Tui.Files.{FileInfo}

-- The errors that the interface shows: its own two, and those of others with their text.
pub data Failure : Type 0 where
  disconnected empty_token : Failure
  failed : Bytes → Failure

pub record TransferState : Type 0 where
  pub file_id : Bytes
  pub file_name : Bytes
  pub done : Bool
  pub error : Option Failure

-- `ProgressModel`, less the width, which the view reads.
pub record ProgressModel : Type 0 where
  pub transfers : List TransferState
  pub visible : Bool

-- `Toggle`
unfoldable pub toggle : ProgressModel → ProgressModel
toggle m = record m { visible = not m.visible }

abbrev pub started : FileInfo → TransferState
started f = record { file_id = f.file_id; file_name = f.name; done = false; error = none }

-- `AddTransfer`
unfoldable pub add_transfer : FileInfo → ProgressModel → ProgressModel
add_transfer f m = record m { transfers = m.transfers ++ started f ∷ [] }

-- The loop of `MarkDone`, which ends at the first transfer of the file.
unfoldable pub mark_first : Bytes → Option Failure → List TransferState → List TransferState
mark_first id error [] = []
mark_first id error (t ∷ ts) =
    if eqb t.file_id id
    then record t { done = true; error = error } ∷ ts
    else t ∷ mark_first id error ts

unfoldable pub mark_done : Bytes → Option Failure → ProgressModel → ProgressModel
unfolding mark_first
mark_done id error m = record m { transfers = mark_first id error m.transfers }

-- `HasActive`
unfoldable pub any_active : List TransferState → Bool
any_active [] = false
any_active (t ∷ ts) = if not t.done then true else any_active ts

unfoldable pub has_active : ProgressModel → Bool
unfolding any_active
has_active m = any_active m.transfers
