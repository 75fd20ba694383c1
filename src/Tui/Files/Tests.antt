-- ===== src/Tui/Files/Tests.antt =====
-- A search in a list of two files, and the theorem at concrete keys.
use kin.Base.{
  if◌then◌else◌, List, ◌==◌, ◌≡◌, ◌&&◌, ◌||◌, refl, Bool, true, false, none, some, [], ◌∷◌, Bytes,
  eqb,
}
use kin.Base.Ints.{pos, negsuc}
use kin.Tui.Files.{
  FileInfo, Binding, Key, down, search_key, escape, select, unbound, new_catalog_model, visible,
  clamp_cursor, scroll_to_cursor, scroll_up, scroll_down, move_to, toggle_selection, selected_in,
  selected_files, half_below, half_above, press, matching, apply_filter, set_files, backspace,
  type_text, leave_search, update_search, key_update, set_size,
}
use kin.Tui.Files.Shown.{Event, pressed, listed, resized, handle, handle_all}

-- `strings.ToLower` and `strings.Contains` on the letters a and A.
abbrev lower : Bytes → Bytes
lower [] = []
lower (b ∷ bs) = (if b == 65 then 97 else b) ∷ lower bs

abbrev starts : Bytes → Bytes → Bool
starts s [] = true
starts [] (b ∷ bs) = false
starts (a ∷ s) (b ∷ bs) = a == b && starts s bs

abbrev contains : Bytes → Bytes → Bool
contains [] t = starts [] t
contains (a ∷ s) t = starts (a ∷ s) t || contains s t

abbrev one : FileInfo
one = record { file_id = 1 ∷ []; name = 98 ∷ 65 ∷ []; is_local = true }

abbrev two : FileInfo
two = record { file_id = 2 ∷ []; name = 99 ∷ []; is_local = false }

abbrev key : Binding → Key
key b = record { binding = b; is_backspace = false; runes = none }

abbrev text : Bytes → Key
text bs = record { binding = unbound; is_backspace = false; runes = some bs }

abbrev listing : List Event
listing = resized (pos 1) ∷ listed (one ∷ two ∷ []) ∷ pressed (key down) ∷ []

-- The second file is under the cursor, and then the one that has an a.
abbrev events : List Event
events =
    resized (pos 1)
    ∷ listed (one ∷ two ∷ [])
    ∷ pressed (key down)
    ∷ pressed (key search_key)
    ∷ pressed (text (97 ∷ []))
    ∷ []

found : visible (handle_all lower contains events new_catalog_model) ≡ one ∷ []
unfolding handle_all handle set_size set_files key_update update_search press move_to clamp_cursor
    scroll_to_cursor scroll_up scroll_down type_text apply_filter matching visible eqb
    new_catalog_model
found = refl

-- A backspace and an escape show both again.
abbrev erase : Key
erase = record { binding = unbound; is_backspace = true; runes = none }

left :
    visible (
      key_update lower contains
        (key escape)
        (key_update lower contains erase (handle_all lower contains events new_catalog_model)))
    ≡ one ∷ two ∷ []
unfolding handle_all handle set_size set_files key_update update_search press move_to clamp_cursor
    scroll_to_cursor scroll_up scroll_down type_text backspace leave_search apply_filter matching
    visible eqb new_catalog_model
left = refl

-- The file under the cursor is selected.
chosen :
    selected_files (press select (handle_all lower contains listing new_catalog_model)) ≡ two ∷ []
unfolding handle_all handle set_size set_files key_update press move_to clamp_cursor
    scroll_to_cursor scroll_up scroll_down apply_filter toggle_selection selected_files selected_in
    visible eqb new_catalog_model
chosen = refl

halves : (half_below (pos 5) 3 ≡ 5) × (half_above (pos 5) 3 ≡ 1) × (half_above (negsuc 4) 3 ≡ 5)
unfolding half_below half_above
halves = (refl, refl, refl)
