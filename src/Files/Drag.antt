-- ===== src/Files/Drag.antt =====
-- file_explorer_hook.js: dragging rows onto a folder, and resizing the tree.
use elektrine.Base.{
  ℕ, String, Bool, true, false, not, ◌&&◌, Option, none, some, List, [], ◌∷◌, ◌++◌, if◌then◌else◌,
  ◌==◌, get_elem?, text_of, ℤ, sub_ℕ, pos_part, neg_part,
}
use elektrine.Files.Types.{Row, drag_move_items, DropTarget, Resize, Explorer}
use elektrine.Files.Rows.{push, add, apply_tree_width, get_selected_tokens}

abbrev pub or_single : String → List String → List String
or_single token [] = token ∷ []
or_single token (t ∷ ts) = t ∷ ts

abbrev tokens_of : Row → Explorer → List String
tokens_of r x = or_single r.token (if r.selected then get_selected_tokens x else [])

abbrev pub drag_from : ℕ → Option Row → Explorer → Explorer
drag_from i none x = x
drag_from i (some r) x = record x { dragging_tokens = some (tokens_of r x); dragging_row = some i }

-- Of the row under the pointer, if it can be dragged and the pointer is on nothing interactive.
unfoldable pub on_drag_start : Option ℕ → Explorer → Explorer
unfolding get_selected_tokens
on_drag_start none x = x
on_drag_start (some i) x = drag_from i (get_elem? x.rows i) x

unfoldable pub on_drag_end : Explorer → Explorer
on_drag_end x = record x { dragging_tokens = none; dragging_row = none; last_drop_target = none }

-- Whether there are tokens.
abbrev pub drags : Option (List String) → Bool
drags none = false
drags (some []) = false
drags (some (t ∷ ts)) = true

unfoldable pub on_drag_over : Option DropTarget → Explorer → Explorer
on_drag_over target x =
    if drags x.dragging_tokens
    then elim target [ none ↦ x | some t ↦ record x { last_drop_target = some t } ]
    else x

abbrev pub same_target : DropTarget → Option DropTarget → Bool
same_target t none = false
same_target t (some u) = t.element == u.element

-- The pointer has left for an element outside of the target, or not.
unfoldable pub on_drag_leave : Option DropTarget → (inside : Bool) → Explorer → Explorer
on_drag_leave none inside x = x
on_drag_leave (some t) inside x =
    if same_target t x.last_drop_target && not inside
    then record x { last_drop_target = none }
    else x

abbrev pub dropped : Option (List String) → Option DropTarget → Explorer → Explorer
dropped none target x = x
dropped (some []) target x = x
dropped (some (t ∷ ts)) none x = x
dropped (some (t ∷ ts)) (some d) x =
    on_drag_end (push (drag_move_items (t ∷ ts) (text_of d.folder)) x)

unfoldable pub on_drop : Option DropTarget → Explorer → Explorer
unfolding on_drag_end
on_drop target x = dropped x.dragging_tokens target x

-- With the width of the pane, or 288 where that is 0 or there is none.
unfoldable pub on_resize_start : (client_x width : ℤ) → Explorer → Explorer
on_resize_start client_x width x =
    if x.has_tree_layout
    then record x { resizes = x.resizes ++ record { start_x = client_x; start_width = width } ∷ [] }
    else x

abbrev pub opposite : ℤ → ℤ
opposite i = sub_ℕ (neg_part i) (pos_part i)

abbrev pub move_all : ℤ → List Resize → Explorer → Explorer
move_all client_x [] x = x
move_all client_x (r ∷ rs) x =
    move_all client_x rs
      (apply_tree_width (add r.start_width (add client_x (opposite r.start_x))) x)

unfoldable pub on_pointer_move : ℤ → Explorer → Explorer
unfolding apply_tree_width
on_pointer_move client_x x = move_all client_x x.resizes x

unfoldable pub on_pointer_up : Explorer → Explorer
on_pointer_up x = record x { resizes = [] }
