-- ===== src/Files/Events.antt =====
-- The file explorer over all events (file_explorer_hook.js).
use elektrine.Base.{refl, Bool, Option, none, some, List, [], ◌∷◌, ℤ}
use elektrine.Files.Types.{Row, Explorer}
use elektrine.Files.Rows.{restore_tree_width}
use elektrine.Files.Drag.{on_drop, on_resize_start, on_pointer_move, on_pointer_up}
use elektrine.Files.Machine.{
  Event, click, double_click, drag_start, drag_end, drag_over, drag_leave, drop, pointer_down,
  pointer_move, pointer_up, key_down, updated, mounted, step, run,
}
use elektrine.Files.Usable.{IsUsable, if-IsUsable, apply_tree_width-IsUsable, refresh_rows-IsUsable}
use elektrine.Files.Usable.Handlers.{
  on_click-IsUsable, on_double_click-IsUsable, on_drag_start-IsUsable, on_drag_end-IsUsable,
  on_drag_over-IsUsable, on_drag_leave-IsUsable, dropped-IsUsable, move_all-IsUsable,
  on_key_down-IsUsable,
}

step-IsUsable : (e : Event) (x : Explorer) → IsUsable x → IsUsable (step e x)
unfolding step on_drop on_resize_start on_pointer_move on_pointer_up
step-IsUsable (click row m) x u = on_click-IsUsable row m x u
step-IsUsable (double_click row) x u = on_double_click-IsUsable row x u
step-IsUsable (drag_start row) x u = on_drag_start-IsUsable row x u
step-IsUsable drag_end x u = on_drag_end-IsUsable x u
step-IsUsable (drag_over target) x u = on_drag_over-IsUsable target x u
step-IsUsable (drag_leave target inside) x u = on_drag_leave-IsUsable target inside x u
step-IsUsable (drop target) x u = dropped-IsUsable x.dragging_tokens target x u
step-IsUsable (pointer_down client_x width) x u =
    if-IsUsable x.has_tree_layout _ x
      (record { active = u.active; drag = u.drag; width = u.width; named = u.named }) u
step-IsUsable (pointer_move client_x) x u = move_all-IsUsable client_x x.resizes x u
step-IsUsable pointer_up x u = record {
  active = u.active;
  drag = u.drag;
  width = u.width;
  named = u.named;
}
step-IsUsable (key_down k) x u = on_key_down-IsUsable k x u
step-IsUsable (updated rows) x u = refresh_rows-IsUsable rows x u

restore-IsUsable :
    (saved : Option ℤ) (x : Explorer) → IsUsable x → IsUsable (restore_tree_width saved x)
unfolding restore_tree_width
restore-IsUsable none x u = u
restore-IsUsable (some width) x u = apply_tree_width-IsUsable width x u

mounted-IsUsable :
    (has_tree_layout : Bool) (saved : Option ℤ) (rows : List Row)
    → IsUsable (mounted has_tree_layout saved rows)
unfolding mounted
mounted-IsUsable has_tree_layout saved rows = refresh_rows-IsUsable rows _ (
    restore-IsUsable saved _
      (record { active = refl; drag = (refl, refl); width = tt; named = tt }))

steps-IsUsable : (es : List Event) (x : Explorer) → IsUsable x → IsUsable (run es x)
unfolding run
steps-IsUsable [] x u = u
steps-IsUsable (e ∷ es) x u = steps-IsUsable es (step e x) (step-IsUsable e x u)

-- From its start, with any rows and any saved width, and over any events, the explorer stays usable:
-- one of the rows is active, or none where there are none; the tree is between 224 and 480 wide;
-- without tokens no row is dragged and no folder is marked; and a move that was pushed names an item.
pub run-IsUsable :
    (has_tree_layout : Bool) (saved : Option ℤ) (rows : List Row) (es : List Event)
    → IsUsable (run es (mounted has_tree_layout saved rows))
run-IsUsable has_tree_layout saved rows es =
    steps-IsUsable es (mounted has_tree_layout saved rows)
      (mounted-IsUsable has_tree_layout saved rows)
