-- ===== src/Files/Keys.antt =====
-- file_explorer_hook.js: clicks and keys.
use elektrine.Base.{
  ℕ, String, Bool, true, false, not, ◌&&◌, ◌||◌, Option, none, some, [], ◌∷◌, if◌then◌else◌, ◌===◌,
  get_elem?, ℤ, pos, negsuc,
}
use elektrine.Files.Types.{
  Row, set_selection, toggle_select, toggle_new_folder, cancel_new_folder, open_manage_folder,
  open_manage_file, start_rename, focus_search, Explorer, min_of, max_of,
}
use elektrine.Files.Rows.{
  has_rows, push, add, negative, last_index, set_active_row, select_range_to, row_at, open_row_at,
}

pub record Modifiers : Type 0 where
  pub shift_key : Bool
  pub meta_key : Bool
  pub ctrl_key : Bool
  pub alt_key : Bool

abbrev pub anchored : ℤ → Explorer → Explorer
anchored i x = record x { anchor_row_index = some i }

abbrev pub click_at : ℕ → Modifiers → Option Row → Explorer → Explorer
click_at i m none x = x
click_at i m (some r) x =
    let active = set_active_row (pos i) true x in
    if m.shift_key
    then select_range_to (pos i) active
    else if m.meta_key || m.ctrl_key
    then push (toggle_select r.token) (anchored (pos i) active)
    else push (set_selection (r.token ∷ [])) (anchored (pos i) active)

-- Of the row under the pointer, if the pointer is on nothing interactive in it.
unfoldable pub on_click : Option ℕ → Modifiers → Explorer → Explorer
unfolding set_active_row select_range_to
on_click none m x = x
on_click (some i) m x = click_at i m (get_elem? x.rows i) x

unfoldable pub on_double_click : Option ℕ → Explorer → Explorer
unfolding open_row_at
on_double_click none x = x
on_double_click (some i) x = open_row_at (pos i) x

-- A key, with what `toLowerCase` makes of it, and whether the target is one for typing.
pub record Key : Type 0 where
  pub key : String
  pub lower : String
  pub modifiers : Modifiers
  pub typing : Bool

abbrev pub plain : Modifiers → Bool
plain m = not m.meta_key && not m.ctrl_key && not m.alt_key

abbrev pub commanded : Modifiers → Bool
commanded m = (m.meta_key || m.ctrl_key) && not m.alt_key

abbrev pub moved : (shift : Bool) → (anchor index : ℤ) → Explorer → Explorer
moved true anchor index x =
    let active = set_active_row index true x in select_range_to active.active_row_index active
moved false anchor index x = set_active_row index true (anchored anchor x)

abbrev pub next_index : ℤ → Explorer → ℤ
next_index change x = if negative x.active_row_index then pos 0 else add x.active_row_index change

abbrev pub arrow_down : Bool → Explorer → Explorer
arrow_down shift x =
    let next = next_index (pos 1) x in
    moved shift (max_of (pos 0) (min_of next (last_index x))) next x

abbrev pub arrow_up : Bool → Explorer → Explorer
arrow_up shift x = let next = next_index (negsuc 0) x in moved shift (max_of (pos 0) next) next x

abbrev pub rename : Option Row → Explorer → Explorer
rename none x = x
rename (some r) x =
    if r.kind === "folder"
    then push (start_rename "folder" r.open_path) (push (open_manage_folder r.open_path) x)
    else push (start_rename "file" r.open_id) (push (open_manage_file r.open_id) x)

abbrev pub toggle_at : Option Row → Explorer → Explorer
toggle_at none x = x
toggle_at (some r) x = push (toggle_select r.token) (anchored x.active_row_index x)

-- The keys that act on the rows, of which there are some.
unfoldable pub on_row_key : Key → Explorer → Explorer
unfolding set_active_row select_range_to open_row_at
on_row_key k x =
    if k.key === "ArrowDown"
    then arrow_down k.modifiers.shift_key x
    else if k.key === "ArrowUp"
    then arrow_up k.modifiers.shift_key x
    else if k.key === "Home"
    then set_active_row (pos 0) true (anchored (pos 0) x)
    else if k.key === "End"
    then set_active_row (last_index x) true (anchored (last_index x) x)
    else if k.key === "Enter"
    then open_row_at x.active_row_index x
    else if k.key === "F2"
    then rename (row_at x.active_row_index x) x
    else if k.key === " "
    then toggle_at (row_at x.active_row_index x) x
    else x

unfoldable pub on_key_down : Key → Explorer → Explorer
unfolding on_row_key
on_key_down k x =
    if k.key === "/" && not k.typing && plain k.modifiers
    then push focus_search x
    else if k.lower === "f" && commanded k.modifiers
    then push focus_search x
    else if k.lower === "n" && not k.typing && plain k.modifiers
    then push toggle_new_folder x
    else if k.key === "Escape" && not k.typing
    then push cancel_new_folder x
    else if k.typing || not (has_rows x.rows)
    then x
    else on_row_key k x
