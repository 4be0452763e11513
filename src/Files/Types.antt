-- ===== src/Files/Types.antt =====
-- The data of the file explorer.
use elektrine.Base.{ℕ, String, Bool, Option, List, ℤ, if◌then◌else◌, ltz}

-- The data attributes of a row.
pub record Row : Type 0 where
  pub token : String
  pub selected : Bool
  pub kind : String
  pub open_event : Option String
  pub open_path : Option String
  pub open_id : Option String

-- What a handler pushes, and what it focuses.
pub data Effect : Type 0 where
  set_selection : (tokens : List String) → Effect
  toggle_select : (token : String) → Effect
  open_row : (event : String) → (path id : Option String) → Effect
  drag_move_items : (tokens : List String) → (folder : String) → Effect
  toggle_new_folder : Effect
  cancel_new_folder : Effect
  open_manage_folder : (path : Option String) → Effect
  open_manage_file : (id : Option String) → Effect
  start_rename : (type : String) → (name : Option String) → Effect
  focus_search : Effect
  focus_row : (index : ℤ) → Effect

-- An element on which items may be dropped, with its folder.
pub record DropTarget : Type 0 where
  pub element : ℕ
  pub folder : Option String

-- A resize under way, from `onResizeStart` to the release of the pointer.
pub record Resize : Type 0 where
  pub start_x : ℤ
  pub start_width : ℤ

pub record Explorer : Type 0 where
  pub rows : List Row
  pub active_row_index : ℤ
  pub anchor_row_index : Option ℤ
  pub dragging_tokens : Option (List String)
  pub dragging_row : Option ℕ
  pub last_drop_target : Option DropTarget
  pub has_tree_layout : Bool
  pub tree_width : Option ℤ
  pub saved_width : Option ℤ
  pub resizes : List Resize
  pub effects : List Effect

-- `Math.min` and `Math.max`
abbrev pub min_of : ℤ → ℤ → ℤ
min_of a b = if ltz b a then b else a

abbrev pub max_of : ℤ → ℤ → ℤ
max_of a b = if ltz a b then b else a
