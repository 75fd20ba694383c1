-- ===== src/Tui/Files.antt =====
-- internal/tui/catalog_model.go: the list of files, its filter, selection, cursor and viewport.
pub mod Shown
mod Tests
use kin.Base.{
  ℕ, zero, suc, ◌+◌, ◌-◌, ◌/◌, ◌≡◌, Bool, true, false, not, ◌&&◌, Option, none, some, List, [], ◌∷◌,
  ◌++◌, ltb, leb, ◌==◌, if◌then◌else◌, length, get_elem?, take, min, Bytes, eqb,
}
use kin.Base.Ints.{ℤ, pos, negsuc}

-- Of `daemon.FileInfo` what the model reads.
pub record FileInfo : Type 0 where
  pub file_id : Bytes
  pub name : Bytes
  pub is_local : Bool

-- `CatalogModel`. Cursor and offset are never below 0; the width is read by the view only.
pub record CatalogModel : Type 0 where
  pub files : List FileInfo
  pub cursor : ℕ
  pub offset : ℕ
  pub selected : Bytes → Bool
  pub search : Bytes
  pub searching : Bool
  pub filtered : List FileInfo
  pub height : ℤ

-- `NewCatalogModel`
pub new_catalog_model : CatalogModel
new_catalog_model = record {
  files = [];
  cursor = 0;
  offset = 0;
  selected = λ _. false;
  search = [];
  searching = false;
  filtered = [];
  height = pos 0;
}

-- `SetSize`, less the width.
pub set_size : ℤ → CatalogModel → CatalogModel
set_size height m = record m { height = height }

-- A key: the binding of normal mode that it matches, and whether it is the backspace or a text.
pub data Binding : Type 0 where
  down up first last half_down half_up search_key escape select unbound : Binding

pub record Key : Type 0 where
  pub binding : Binding
  pub is_backspace : Bool
  pub runes : Option Bytes

-- `Visible`
pub visible : CatalogModel → List FileInfo
visible m = if m.searching && not (eqb m.search []) then m.filtered else m.files

pub clamp_cursor : CatalogModel → CatalogModel
unfolding visible
clamp_cursor m =
    let n = length (visible m) in
    if n == 0 then record m { cursor = 0 } else record m { cursor = min m.cursor (n - 1) }

-- The two tests of `scrollToCursor` at a height above 0.
pub scroll_up : CatalogModel → CatalogModel
scroll_up m = if ltb m.cursor m.offset then record m { offset = m.cursor } else m

pub scroll_down : ℕ → CatalogModel → CatalogModel
scroll_down height m =
    if leb (m.offset + height) m.cursor then record m { offset = suc m.cursor - height } else m

abbrev pub scroll_in : ℤ → CatalogModel → CatalogModel
scroll_in (pos zero) m = m
scroll_in (pos (suc n)) m = scroll_down (suc n) (scroll_up m)
scroll_in (negsuc n) m = m

pub scroll_to_cursor : CatalogModel → CatalogModel
unfolding scroll_up scroll_down
scroll_to_cursor m = scroll_in m.height m

-- `m.cursor += m.height / 2` and `m.cursor -= m.height / 2`, where a cursor below 0 is clamped to 0
-- behind it; division rounds towards 0.
pub half_below : ℤ → ℕ → ℕ
half_below (pos n) cursor = cursor + n / 2
half_below (negsuc n) cursor = cursor - suc n / 2

pub half_above : ℤ → ℕ → ℕ
half_above (pos n) cursor = cursor - n / 2
half_above (negsuc n) cursor = cursor + suc n / 2

-- The cursor set, clamped, and scrolled to.
pub move_to : ℕ → CatalogModel → CatalogModel
unfolding clamp_cursor scroll_to_cursor
move_to cursor m = scroll_to_cursor (clamp_cursor (record m { cursor = cursor }))

abbrev pub toggled : Option FileInfo → CatalogModel → CatalogModel
toggled none m = m
toggled (some f) m = record m {
  selected = λ id. if eqb f.file_id id then not (m.selected f.file_id) else m.selected id;
}

-- `toggleSelection`
pub toggle_selection : CatalogModel → CatalogModel
unfolding visible
toggle_selection m = toggled (get_elem? (visible m) m.cursor) m

-- `SelectedFiles`
pub selected_in : (Bytes → Bool) → List FileInfo → List FileInfo
selected_in selected [] = []
selected_in selected (f ∷ fs) =
    if selected f.file_id then f ∷ selected_in selected fs else selected_in selected fs

pub selected_files : CatalogModel → List FileInfo
unfolding selected_in visible
selected_files m = selected_in m.selected (visible m)

-- The bindings in normal mode.
pub press : Binding → CatalogModel → CatalogModel
unfolding move_to scroll_to_cursor toggle_selection half_below half_above visible
press down m = move_to (m.cursor + 1) m
press up m = move_to (m.cursor - 1) m
press first m = scroll_to_cursor (record m { cursor = 0 })
press last m = scroll_to_cursor (record m { cursor = length (visible m) - 1 })
press half_down m = move_to (half_below m.height m.cursor) m
press half_up m = move_to (half_above m.height m.cursor) m
press search_key m = record m { searching = true; search = [] }
press select m = toggle_selection m
press escape m = m
press unbound m = m

module _ (to_lower : Bytes → Bytes) (contains : Bytes → Bytes → Bool) where
  -- The loop of `applyFilter`; `contains` is `strings.Contains`.
  pub matching : Bytes → List FileInfo → List FileInfo
  matching lower [] = []
  matching lower (f ∷ fs) =
      if contains (to_lower f.name) lower then f ∷ matching lower fs else matching lower fs

  pub apply_filter : CatalogModel → CatalogModel
  unfolding matching
  apply_filter m =
      if eqb m.search []
      then record m { filtered = [] }
      else record m { filtered = matching (to_lower m.search) m.files }

  -- `SetFiles`
  pub set_files : List FileInfo → CatalogModel → CatalogModel
  unfolding apply_filter clamp_cursor
  set_files files m = clamp_cursor (apply_filter (record m { files = files }))

  -- The last byte is dropped, if there is one.
  pub backspace : CatalogModel → CatalogModel
  unfolding apply_filter clamp_cursor
  backspace m =
      if ltb 0 (length m.search)
      then clamp_cursor (apply_filter (record m { search = take (length m.search - 1) m.search }))
      else m

  pub type_text : Bytes → CatalogModel → CatalogModel
  unfolding apply_filter
  type_text runes m = record (apply_filter (record m { search = m.search ++ runes })) {
    cursor = 0;
    offset = 0;
  }

  -- The keys that remain in search mode.
  abbrev pub search_move : Binding → CatalogModel → CatalogModel
  search_move down m = move_to (m.cursor + 1) m
  search_move up m = move_to (m.cursor - 1) m
  search_move first m = m
  search_move last m = m
  search_move half_down m = m
  search_move half_up m = m
  search_move search_key m = m
  search_move escape m = m
  search_move select m = m
  search_move unbound m = m

  abbrev pub search_text : Option Bytes → Binding → CatalogModel → CatalogModel
  search_text none binding m = search_move binding m
  search_text (some runes) binding m = type_text runes m

  pub leave_search : CatalogModel → CatalogModel
  unfolding apply_filter clamp_cursor
  leave_search m = clamp_cursor (apply_filter (record m { searching = false; search = [] }))

  abbrev pub is_escape : Binding → Bool
  is_escape escape = true
  is_escape down = false
  is_escape up = false
  is_escape first = false
  is_escape last = false
  is_escape half_down = false
  is_escape half_up = false
  is_escape search_key = false
  is_escape select = false
  is_escape unbound = false

  -- `updateSearch`
  pub update_search : Key → CatalogModel → CatalogModel
  unfolding leave_search backspace type_text move_to
  update_search k m =
      if is_escape k.binding
      then leave_search m
      else if k.is_backspace
      then backspace m
      else search_text k.runes k.binding m

  -- `Update` at a key.
  pub key_update : Key → CatalogModel → CatalogModel
  unfolding update_search press
  key_update k m = if m.searching then update_search k m else press k.binding m
