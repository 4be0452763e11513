-- ===== src/Files/Usable/Handlers.antt =====
-- The active row, the drag and the width, handler by handler (file_explorer_hook.js).
use elektrine.Base.{
  ℕ, ◌≡◌, ◌≤◌, refl, sym, String, Bool, true, false, not, Option, none, some, List, [], ◌∷◌, ◌&&◌,
  ◌||◌, ◌===◌, get_elem?, length, arith, inl, inr, Bool-cases, truthy, text_of, ℤ, pos,
}
use elektrine.Files.Types.{
  Row, open_row, toggle_select, set_selection, drag_move_items, toggle_new_folder,
  cancel_new_folder, open_manage_folder, open_manage_file, start_rename, focus_search, DropTarget,
  Resize, Explorer,
}
use elektrine.Files.Rows.{has_rows, opened, row_at, open_row_at, last_index, set_active_row}
use elektrine.Files.Drag.{
  or_single, drag_from, on_drag_start, on_drag_end, drags, on_drag_over, same_target, on_drag_leave,
  dropped, move_all,
}
use elektrine.Files.Keys.{
  Modifiers, anchored, click_at, on_click, on_double_click, Key, plain, commanded, moved, rename,
  toggle_at, on_row_key, on_key_down,
}
use elektrine.Files.Usable.{
  IsUsable, DragIn, is_marked, push-IsUsable, if-IsUsable, apply_tree_width-IsUsable,
  set_active_row-IsUsable, select_range_to-IsUsable,
}

anchored-IsUsable : (i : ℤ) (x : Explorer) → IsUsable x → IsUsable (anchored i x)
anchored-IsUsable i x u = record {
  active = u.active;
  drag = u.drag;
  width = u.width;
  named = u.named;
}

opened-IsUsable : (o : Option Row) (x : Explorer) → IsUsable x → IsUsable (opened o x)
opened-IsUsable none x u = u
opened-IsUsable (some r) x u =
    if-IsUsable (truthy (text_of r.open_event)) _ x (push-IsUsable (open_row _ _ _) x tt u) u

click_at-IsUsable :
    (i : ℕ) (m : Modifiers) (o : Option Row) (x : Explorer)
    → IsUsable x
    → IsUsable (click_at i m o x)
click_at-IsUsable i m none x u = u
click_at-IsUsable i m (some r) x u =
    let active = set_active_row (pos i) true x in
    let v = set_active_row-IsUsable (pos i) true x u in
    let w = anchored-IsUsable (pos i) active v in
    if-IsUsable m.shift_key _ _ (select_range_to-IsUsable (pos i) active v) (
      if-IsUsable (m.meta_key || m.ctrl_key) _ _
        (push-IsUsable (toggle_select r.token) (anchored (pos i) active) tt w)
        (push-IsUsable (set_selection (r.token ∷ [])) (anchored (pos i) active) tt w))

pub on_click-IsUsable :
    (o : Option ℕ) (m : Modifiers) (x : Explorer) → IsUsable x → IsUsable (on_click o m x)
unfolding on_click
on_click-IsUsable none m x u = u
on_click-IsUsable (some i) m x u = click_at-IsUsable i m (get_elem? x.rows i) x u

pub on_double_click-IsUsable :
    (o : Option ℕ) (x : Explorer) → IsUsable x → IsUsable (on_double_click o x)
unfolding on_double_click open_row_at
on_double_click-IsUsable none x u = u
on_double_click-IsUsable (some i) x u = opened-IsUsable (row_at (pos i) x) x u

or_single_some : (t : String) (ts : List String) → 1 ≤ length (or_single t ts)
or_single_some t [] = omega arith
or_single_some t (s ∷ ts) = omega arith

drag_from-IsUsable :
    (i : ℕ) (o : Option Row) (x : Explorer) → IsUsable x → IsUsable (drag_from i o x)
drag_from-IsUsable i none x u = u
drag_from-IsUsable i (some r) x u = record {
  active = u.active;
  drag = or_single_some r.token _;
  width = u.width;
  named = u.named;
}

pub on_drag_start-IsUsable :
    (o : Option ℕ) (x : Explorer) → IsUsable x → IsUsable (on_drag_start o x)
unfolding on_drag_start
on_drag_start-IsUsable none x u = u
on_drag_start-IsUsable (some i) x u = drag_from-IsUsable i (get_elem? x.rows i) x u

pub on_drag_end-IsUsable : (x : Explorer) → IsUsable x → IsUsable (on_drag_end x)
unfolding on_drag_end
on_drag_end-IsUsable x u = record {
  active = u.active;
  drag = (refl, refl);
  width = u.width;
  named = u.named;
}

over-drag :
    (o : Option (List String)) (row : Option ℕ) (b : Bool)
    → drags o ≡ true
    → DragIn o row b
    → DragIn o row true
over-drag none row b e d = (d.0, sym e)
over-drag (some ts) row b e d = d

leave-drag :
    (o : Option (List String)) (row : Option ℕ) (b : Bool) → DragIn o row b → DragIn o row false
leave-drag none row b d = (d.0, refl)
leave-drag (some ts) row b d = d

pub on_drag_over-IsUsable :
    (o : Option DropTarget) (x : Explorer) → IsUsable x → IsUsable (on_drag_over o x)
unfolding on_drag_over
on_drag_over-IsUsable none x u = if-IsUsable (drags x.dragging_tokens) x x u u
on_drag_over-IsUsable (some t) x u = elim (Bool-cases (drags x.dragging_tokens)) [
  | inl e ↦ rw e (record {
    active = u.active;
    drag = over-drag x.dragging_tokens x.dragging_row (is_marked x.last_drop_target) e u.drag;
    width = u.width;
    named = u.named;
  })
  | inr e ↦ rw e u
]

pub on_drag_leave-IsUsable :
    (o : Option DropTarget) (inside : Bool) (x : Explorer)
    → IsUsable x
    → IsUsable (on_drag_leave o inside x)
unfolding on_drag_leave
on_drag_leave-IsUsable none inside x u = u
on_drag_leave-IsUsable (some t) inside x u =
    if-IsUsable (same_target t x.last_drop_target && not inside) _ x
      (record {
        active = u.active;
        drag = leave-drag x.dragging_tokens x.dragging_row (is_marked x.last_drop_target) u.drag;
        width = u.width;
        named = u.named;
      })
      u

pub dropped-IsUsable :
    (ts : Option (List String)) (o : Option DropTarget) (x : Explorer)
    → IsUsable x
    → IsUsable (dropped ts o x)
dropped-IsUsable none o x u = u
dropped-IsUsable (some []) o x u = u
dropped-IsUsable (some (t ∷ ts)) none x u = u
dropped-IsUsable (some (t ∷ ts)) (some d) x u =
    on_drag_end-IsUsable _ (push-IsUsable (drag_move_items (t ∷ ts) _) x (omega arith) u)

pub move_all-IsUsable :
    (client_x : ℤ) (rs : List Resize) (x : Explorer)
    → IsUsable x
    → IsUsable (move_all client_x rs x)
move_all-IsUsable client_x [] x u = u
move_all-IsUsable client_x (r ∷ rs) x u =
    move_all-IsUsable client_x rs _ (apply_tree_width-IsUsable _ x u)

moved-IsUsable :
    (shift : Bool) (anchor index : ℤ) (x : Explorer)
    → IsUsable x
    → IsUsable (moved shift anchor index x)
moved-IsUsable true anchor index x u =
    select_range_to-IsUsable _ (set_active_row index true x)
      (set_active_row-IsUsable index true x u)
moved-IsUsable false anchor index x u =
    set_active_row-IsUsable index true (anchored anchor x) (anchored-IsUsable anchor x u)

rename-IsUsable : (o : Option Row) (x : Explorer) → IsUsable x → IsUsable (rename o x)
rename-IsUsable none x u = u
rename-IsUsable (some r) x u =
    if-IsUsable (r.kind === "folder") _ _
      (push-IsUsable (start_rename _ _) _ tt (push-IsUsable (open_manage_folder _) x tt u))
      (push-IsUsable (start_rename _ _) _ tt (push-IsUsable (open_manage_file _) x tt u))

toggle_at-IsUsable : (o : Option Row) (x : Explorer) → IsUsable x → IsUsable (toggle_at o x)
toggle_at-IsUsable none x u = u
toggle_at-IsUsable (some r) x u =
    push-IsUsable (toggle_select r.token) _ tt (anchored-IsUsable x.active_row_index x u)

on_row_key-IsUsable : (k : Key) (x : Explorer) → IsUsable x → IsUsable (on_row_key k x)
unfolding on_row_key open_row_at
on_row_key-IsUsable k x u =
    if-IsUsable (k.key === "ArrowDown") _ _ (moved-IsUsable k.modifiers.shift_key _ _ x u) (
      if-IsUsable (k.key === "ArrowUp") _ _ (moved-IsUsable k.modifiers.shift_key _ _ x u) (
        if-IsUsable (k.key === "Home") _ _ (moved-IsUsable false (pos 0) (pos 0) x u) (
          if-IsUsable (k.key === "End") _ _ (moved-IsUsable false (last_index x) (last_index x) x u)
            (if-IsUsable (k.key === "Enter") _ _ (opened-IsUsable (row_at x.active_row_index x) x u)
              (if-IsUsable (k.key === "F2") _ _ (rename-IsUsable (row_at x.active_row_index x) x u)
                (if-IsUsable (k.key === " ") _ x
                  (toggle_at-IsUsable (row_at x.active_row_index x) x u) u))))))

pub on_key_down-IsUsable : (k : Key) (x : Explorer) → IsUsable x → IsUsable (on_key_down k x)
unfolding on_key_down
on_key_down-IsUsable k x u =
    if-IsUsable (k.key === "/" && not k.typing && plain k.modifiers) _ _
      (push-IsUsable focus_search x tt u)
      (if-IsUsable (k.lower === "f" && commanded k.modifiers) _ _
        (push-IsUsable focus_search x tt u)
        (if-IsUsable (k.lower === "n" && not k.typing && plain k.modifiers) _ _
          (push-IsUsable toggle_new_folder x tt u)
          (if-IsUsable (k.key === "Escape" && not k.typing) _ _
            (push-IsUsable cancel_new_folder x tt u)
            (if-IsUsable (k.typing || not (has_rows x.rows)) x _ u (on_row_key-IsUsable k x u)))))
