-- ===== src/Tui/Files/Shown.antt =====
-- What the list of files shows, after any keys and updates.
use kin.Base.{
  ℕ, zero, suc, ◌+◌, ◌-◌, ◌≤◌, ◌≡◌, refl, Bool, false, not, ◌&&◌, Option, none, some, List, [], ◌∷◌,
  arith, eqb, if◌then◌else◌, length, get_elem?, take, ◌++◌, Bytes,
}
use kin.Base.Ints.{ℤ, pos, negsuc}
use kin.Tui.Files.{
  FileInfo, CatalogModel, Binding, down, up, first, last, half_down, half_up, search_key, escape,
  select, unbound, Key, visible, clamp_cursor, scroll_up, scroll_down, scroll_in, scroll_to_cursor,
  half_below, half_above, move_to, toggled, toggle_selection, press, new_catalog_model, set_size,
  matching, apply_filter, set_files, backspace, type_text, leave_search, search_move, search_text,
  update_search, key_update,
}

-- What the program does with the model.
pub data Event : Type 0 where
  pressed : Key → Event
  listed : List FileInfo → Event
  resized : ℤ → Event

module _ (to_lower : Bytes → Bytes) (contains : Bytes → Bytes → Bool) where
  -- The files that are to be seen, computed anew from the files and the text searched for.
  unfoldable pub shown : CatalogModel → List FileInfo
  shown m =
      if m.searching && not (eqb m.search [])
      then matching to_lower contains (to_lower m.search) m.files
      else m.files

  abbrev pub IsFiltered : CatalogModel → Type 0
  IsFiltered m = visible m ≡ shown m

  abbrev pub IsShown : CatalogModel → Type 0
  IsShown m = (visible m ≡ shown m) × (m.cursor ≤ length (visible m) - 1)

  clamp_cursor-IsShown : (m : CatalogModel) → IsFiltered m → IsShown (clamp_cursor m)
  unfolding clamp_cursor visible shown
  clamp_cursor-IsShown m h = ground arith

  scroll_in-IsShown : (height : ℤ) (m : CatalogModel) → IsShown m → IsShown (scroll_in height m)
  unfolding scroll_up scroll_down visible shown
  scroll_in-IsShown (pos zero) m h = h
  scroll_in-IsShown (pos (suc n)) m h = ground arith
  scroll_in-IsShown (negsuc n) m h = h

  scroll_to_cursor-IsShown : (m : CatalogModel) → IsShown m → IsShown (scroll_to_cursor m)
  unfolding scroll_to_cursor
  scroll_to_cursor-IsShown m h = scroll_in-IsShown m.height m h

  move_to-IsShown : (cursor : ℕ) (m : CatalogModel) → IsFiltered m → IsShown (move_to cursor m)
  unfolding move_to visible shown
  move_to-IsShown cursor m h =
      scroll_to_cursor-IsShown _ (clamp_cursor-IsShown (record m { cursor = cursor }) h)

  apply_filter-IsFiltered : (m : CatalogModel) → IsFiltered (apply_filter to_lower contains m)
  unfolding apply_filter visible shown
  apply_filter-IsFiltered m = ground arith

  toggled-IsShown : (f : Option FileInfo) (m : CatalogModel) → IsShown m → IsShown (toggled f m)
  unfolding visible shown
  toggled-IsShown none m h = h
  toggled-IsShown (some f) m h = h

  press-IsShown :
      (b : Binding) (m : CatalogModel) → m.searching ≡ false → IsShown m → IsShown (press b m)
  unfolding press toggle_selection visible shown eqb
  press-IsShown down m out h = move_to-IsShown (m.cursor + 1) m h.0
  press-IsShown up m out h = move_to-IsShown (m.cursor - 1) m h.0
  press-IsShown first m out h =
      scroll_to_cursor-IsShown (record m { cursor = 0 }) (h.0, omega arith)
  press-IsShown last m out h =
      scroll_to_cursor-IsShown (record m { cursor = length (visible m) - 1 }) (h.0, omega arith)
  press-IsShown half_down m out h = move_to-IsShown (half_below m.height m.cursor) m h.0
  press-IsShown half_up m out h = move_to-IsShown (half_above m.height m.cursor) m h.0
  press-IsShown search_key m out h = ground arith
  press-IsShown select m out h = toggled-IsShown (get_elem? (visible m) m.cursor) m h
  press-IsShown escape m out h = h
  press-IsShown unbound m out h = h

  leave_search-IsShown : (m : CatalogModel) → IsShown (leave_search to_lower contains m)
  unfolding leave_search
  leave_search-IsShown m =
      clamp_cursor-IsShown _ (apply_filter-IsFiltered (record m { searching = false; search = [] }))

  backspace-IsShown : (m : CatalogModel) → IsShown m → IsShown (backspace to_lower contains m)
  unfolding backspace
  backspace-IsShown m h = ground (
    arith,
    clamp_cursor-IsShown _
        (apply_filter-IsFiltered (record m { search = take (length m.search - 1) m.search })),
  )

  type_text-IsShown :
      (runes : Bytes) (m : CatalogModel) → IsShown (type_text to_lower contains runes m)
  unfolding type_text visible shown
  type_text-IsShown runes m =
      (apply_filter-IsFiltered (record m { search = m.search ++ runes }), omega arith)

  search_move-IsShown :
      (b : Binding) (m : CatalogModel) → IsShown m → IsShown (search_move to_lower contains b m)
  search_move-IsShown down m h = move_to-IsShown (m.cursor + 1) m h.0
  search_move-IsShown up m h = move_to-IsShown (m.cursor - 1) m h.0
  search_move-IsShown first m h = h
  search_move-IsShown last m h = h
  search_move-IsShown half_down m h = h
  search_move-IsShown half_up m h = h
  search_move-IsShown search_key m h = h
  search_move-IsShown escape m h = h
  search_move-IsShown select m h = h
  search_move-IsShown unbound m h = h

  search_text-IsShown :
      (runes : Option Bytes) (b : Binding) (m : CatalogModel)
      → IsShown m
      → IsShown (search_text to_lower contains runes b m)
  search_text-IsShown none b m h = search_move-IsShown b m h
  search_text-IsShown (some runes) b m h = type_text-IsShown runes m

  update_search-IsShown :
      (k : Key) (m : CatalogModel) → IsShown m → IsShown (update_search to_lower contains k m)
  unfolding update_search
  update_search-IsShown k m h = ground (
    arith,
    leave_search-IsShown m,
    backspace-IsShown m h,
    search_text-IsShown k.runes k.binding m h,
  )

  pub key_update-IsShown :
      (k : Key) (m : CatalogModel) → IsShown m → IsShown (key_update to_lower contains k m)
  unfolding key_update
  key_update-IsShown k m h = ground (arith, update_search-IsShown k m h, press-IsShown k.binding m)

  unfoldable pub handle : Event → CatalogModel → CatalogModel
  unfolding key_update set_files set_size
  handle (pressed k) m = key_update to_lower contains k m
  handle (listed files) m = set_files to_lower contains files m
  handle (resized height) m = set_size height m

  unfoldable pub handle_all : List Event → CatalogModel → CatalogModel
  unfolding handle
  handle_all [] m = m
  handle_all (e ∷ es) m = handle_all es (handle e m)

  pub set_files-IsShown :
      (files : List FileInfo) (m : CatalogModel) → IsShown (set_files to_lower contains files m)
  unfolding set_files
  set_files-IsShown files m =
      clamp_cursor-IsShown _ (apply_filter-IsFiltered (record m { files = files }))

  handle-IsShown : (e : Event) (m : CatalogModel) → IsShown m → IsShown (handle e m)
  unfolding handle set_size visible shown
  handle-IsShown (pressed k) m h = key_update-IsShown k m h
  handle-IsShown (listed files) m h = set_files-IsShown files m
  handle-IsShown (resized height) m h = h

  handle_all-IsShown : (es : List Event) (m : CatalogModel) → IsShown m → IsShown (handle_all es m)
  unfolding handle_all
  handle_all-IsShown [] m h = h
  handle_all-IsShown (e ∷ es) m h = handle_all-IsShown es (handle e m) (handle-IsShown e m h)

  pub set_size-IsShown : (height : ℤ) (m : CatalogModel) → IsShown m → IsShown (set_size height m)
  unfolding set_size visible shown
  set_size-IsShown height m h = h

  pub new-IsShown : IsShown new_catalog_model
  unfolding new_catalog_model visible shown
  new-IsShown = (refl, omega arith)

  -- Whatever keys are pressed from the new model on, and however the list is set anew and resized:
  -- the files to be seen, which the code keeps filtered beside the list, are those that filtering
  -- the list anew gives, and the cursor is on one of them, or at 0 where there is none.
  pub handle_all-shown :
      (es : List Event)
      → (visible (handle_all es new_catalog_model) ≡ shown (handle_all es new_catalog_model))
        × ((handle_all es new_catalog_model).cursor
            ≤ length (visible (handle_all es new_catalog_model)) - 1)
  unfolding new_catalog_model visible shown
  handle_all-shown es = handle_all-IsShown es new_catalog_model (refl, omega arith)
