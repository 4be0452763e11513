-- ===== src/Files/Machine.antt =====
-- file_explorer_hook.js: what happens to the explorer, one event at a time.
use elektrine.Base.{ℕ, Bool, Option, none, List, [], ◌∷◌, ℤ, negsuc}
use elektrine.Files.Types.{Row, DropTarget, Explorer}
use elektrine.Files.Rows.{restore_tree_width, refresh_rows}
use elektrine.Files.Drag.{
  on_drag_start, on_drag_end, on_drag_over, on_drag_leave, on_drop, on_resize_start,
  on_pointer_move, on_pointer_up,
}
use elektrine.Files.Keys.{Modifiers, on_click, on_double_click, Key, on_key_down}

-- The events of the page; `updated` brings the rows that it has then.
pub data Event : Type 0 where
  click : Option ℕ → Modifiers → Event
  double_click : Option ℕ → Event
  drag_start : Option ℕ → Event
  drag_end : Event
  drag_over : Option DropTarget → Event
  drag_leave : Option DropTarget → (inside : Bool) → Event
  drop : Option DropTarget → Event
  pointer_down : (client_x width : ℤ) → Event
  pointer_move : (client_x : ℤ) → Event
  pointer_up : Event
  key_down : Key → Event
  updated : List Row → Event

unfoldable pub mounted : (has_tree_layout : Bool) → (saved : Option ℤ) → List Row → Explorer
unfolding restore_tree_width refresh_rows
mounted has_tree_layout saved rows = refresh_rows rows (
    restore_tree_width saved (record {
      rows = [];
      active_row_index = negsuc 0;
      anchor_row_index = none;
      dragging_tokens = none;
      dragging_row = none;
      last_drop_target = none;
      has_tree_layout = has_tree_layout;
      tree_width = none;
      saved_width = saved;
      resizes = [];
      effects = [];
    }))

unfoldable pub step : Event → Explorer → Explorer
unfolding refresh_rows on_click on_double_click on_drag_start on_drag_end on_drag_over on_drag_leave
    on_drop on_resize_start on_pointer_move on_pointer_up on_key_down
step (click row m) x = on_click row m x
step (double_click row) x = on_double_click row x
step (drag_start row) x = on_drag_start row x
step drag_end x = on_drag_end x
step (drag_over target) x = on_drag_over target x
step (drag_leave target inside) x = on_drag_leave target inside x
step (drop target) x = on_drop target x
step (pointer_down client_x width) x = on_resize_start client_x width x
step (pointer_move client_x) x = on_pointer_move client_x x
step pointer_up x = on_pointer_up x
step (key_down k) x = on_key_down k x
step (updated rows) x = refresh_rows rows x

unfoldable pub run : List Event → Explorer → Explorer
unfolding step
run [] x = x
run (e ∷ es) x = run es (step e x)
