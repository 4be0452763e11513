-- ===== src/Files/Usable.antt =====
-- The active row, the drag and the width of the file explorer (file_explorer_hook.js).
pub mod Handlers
use mathlib.Core.Path.{subst}
use elektrine.Base.{
  ℕ, suc, ◌≡◌, ◌≤◌, ◌<◌, refl, sym, String, Bool, true, false, not, Option, none, some, List, [],
  ◌∷◌, ◌++◌, ◌||◌, if◌then◌else◌, ltb, leb, ltz, length, All, arith, ℤ, pos, negsuc, sub_ℕ, inl,
  inr, Bool-cases,
}
use elektrine.Files.Types.{
  Row, Effect, drag_move_items, set_selection, focus_row, Explorer, min_of, max_of,
}
use elektrine.Files.Rows.{
  push, min_width, max_width, apply_tree_width, focused, bounded, activate, has_rows,
  set_active_row, refresh_rows, select_range_to, negative,
}

-- With no rows none is active, and otherwise one of them.
abbrev pub ActiveIn : List Row → ℤ → Type 0
ActiveIn [] z = z ≡ negsuc 0
ActiveIn (r ∷ rs) z = (i : ℕ) × (z ≡ pos i) × (i < length (r ∷ rs))

abbrev pub WidthIn : Option ℤ → Type 0
WidthIn none = Unit
WidthIn (some z) = (w : ℕ) × (z ≡ pos w) × (224 ≤ w) × (w ≤ 480)

-- Without tokens no row is dragged and no target marked; tokens are there to be moved.
abbrev pub DragIn : Option (List String) → Option ℕ → Bool → Type 0
DragIn none row marked = (row ≡ none) × (marked ≡ false)
DragIn (some ts) row marked = 1 ≤ length ts

-- A move that is pushed names an item.
abbrev pub Named : Effect → Type 0
Named (drag_move_items ts folder) = 1 ≤ length ts
Named _ = Unit

abbrev pub is_marked {ℓ} : {A : Type ℓ} → Option A → Bool
is_marked none = false
is_marked (some a) = true

pub record IsUsable (x : Explorer) : Type 0 where
  pub active : ActiveIn x.rows x.active_row_index
  pub drag : DragIn x.dragging_tokens x.dragging_row (is_marked x.last_drop_target)
  pub width : WidthIn x.tree_width
  pub named : All Named x.effects

All-snoc : (es : List Effect) (e : Effect) → All Named es → Named e → All Named (es ++ e ∷ [])
All-snoc [] e h n = (n, tt)
All-snoc (f ∷ es) e (m, h) n = (m, All-snoc es e h n)

pub push-IsUsable : (e : Effect) (x : Explorer) → Named e → IsUsable x → IsUsable (push e x)
push-IsUsable e x n u = record {
  active = u.active;
  drag = u.drag;
  width = u.width;
  named = All-snoc x.effects e u.named n;
}

bounded_index :
    (index : ℤ) (n : ℕ)
    → (i : ℕ) × (max_of (pos 0) (min_of index (sub_ℕ (suc n) 1)) ≡ pos i) × (i < suc n)
bounded_index (pos m) n = elim (Bool-cases (leb m n)) [
  | inl e ↦ (m, ground (arith, e), ground (arith, e))
  | inr e ↦ (n, ground (arith, e), omega arith)
]
bounded_index (negsuc m) n = (0, ground arith, omega arith)

clamped : (width : ℤ) → WidthIn (some (max_of min_width (min_of width max_width)))
clamped (pos m) = elim (Bool-cases (ltb m 224)) [
  | inl e ↦ (224, ground (arith, e), omega arith, omega arith)
  | inr e ↦ elim (Bool-cases (ltb 480 m)) [
    | inl f ↦ (480, ground (arith, e, f), omega arith, omega arith)
    | inr f ↦ (m, ground (arith, e, f), ground (arith, e), ground (arith, f))
  ]
]
clamped (negsuc m) = (224, ground arith, omega arith, omega arith)

pub if-IsUsable :
    (b : Bool) (x y : Explorer) → IsUsable x → IsUsable y → IsUsable (if b then x else y)
if-IsUsable true x y u v = u
if-IsUsable false x y u v = v

pub apply_tree_width-IsUsable :
    (width : ℤ) (x : Explorer) → IsUsable x → IsUsable (apply_tree_width width x)
unfolding apply_tree_width
apply_tree_width-IsUsable width x u =
    if-IsUsable x.has_tree_layout _ x
      (record { active = u.active; drag = u.drag; width = clamped width; named = u.named }) u

focused-IsUsable : (focus : Bool) (i : ℤ) (x : Explorer) → IsUsable x → IsUsable (focused focus i x)
focused-IsUsable true i x u = push-IsUsable (focus_row i) x tt u
focused-IsUsable false i x u = u

-- What makes a page usable but for the active row.
abbrev Rest : Explorer → Type 0
Rest x =
    DragIn x.dragging_tokens x.dragging_row (is_marked x.last_drop_target)
    × WidthIn x.tree_width
    × All Named x.effects

activate-made :
    (r : Row) (rs : List Row) (index : ℤ) (focus : Bool) (x : Explorer)
    → x.rows ≡ r ∷ rs
    → Rest x
    → IsUsable (activate (r ∷ rs) index focus x)
activate-made r rs index focus x e (drag, width, named) =
    focused-IsUsable focus (bounded index x) (record x { active_row_index = bounded index x })
      (record {
        active =
            subst (λ ys. ActiveIn ys (max_of (pos 0) (min_of index (sub_ℕ (length ys) 1)))) (sym e)
              (bounded_index index (length rs));
        drag = drag;
        width = width;
        named = named;
      })

activate-IsUsable :
    (rows : List Row) (index : ℤ) (focus : Bool) (x : Explorer)
    → x.rows ≡ rows
    → IsUsable x
    → IsUsable (activate rows index focus x)
activate-IsUsable [] index focus x e u = u
activate-IsUsable (r ∷ rs) index focus x e u =
    activate-made r rs index focus x e (u.drag, u.width, u.named)

pub set_active_row-IsUsable :
    (index : ℤ) (focus : Bool) (x : Explorer) → IsUsable x → IsUsable (set_active_row index focus x)
unfolding set_active_row
set_active_row-IsUsable index focus x u = activate-IsUsable x.rows index focus x refl u

-- An active row that is neither before the first nor after the last is one of them.
kept-ActiveIn :
    (r : Row) (rs : List Row) (z : ℤ)
    → (negative z || not (ltz z (pos (length (r ∷ rs))))) ≡ false
    → ActiveIn (r ∷ rs) z
kept-ActiveIn r rs (pos n) e = (n, refl, ground (arith, e))
kept-ActiveIn r rs (negsuc n) e = (0, ground (arith, e), omega arith)

refresh_if :
    (r : Row) (rs : List Row) (b : Bool) (x : Explorer)
    → (negative x.active_row_index || not (ltz x.active_row_index (pos (length (r ∷ rs))))) ≡ b
    → Rest x
    → IsUsable (
        if b
        then set_active_row (pos 0) false (record x { rows = r ∷ rs })
        else record x { rows = r ∷ rs })
unfolding set_active_row
refresh_if r rs true x e rest =
    activate-made r rs (pos 0) false (record x { rows = r ∷ rs }) refl rest
refresh_if r rs false x e (drag, width, named) = record {
  active = kept-ActiveIn r rs x.active_row_index e;
  drag = drag;
  width = width;
  named = named;
}

refresh_rows-made : (rows : List Row) (x : Explorer) → Rest x → IsUsable (refresh_rows rows x)
unfolding refresh_rows
refresh_rows-made [] x (drag, width, named) = record {
  active = refl;
  drag = drag;
  width = width;
  named = named;
}
refresh_rows-made (r ∷ rs) x rest = refresh_if r rs _ x refl rest

pub refresh_rows-IsUsable :
    (rows : List Row) (x : Explorer) → IsUsable x → IsUsable (refresh_rows rows x)
refresh_rows-IsUsable rows x u = refresh_rows-made rows x (u.drag, u.width, u.named)

pub select_range_to-IsUsable :
    (target : ℤ) (x : Explorer) → IsUsable x → IsUsable (select_range_to target x)
unfolding select_range_to
select_range_to-IsUsable target x u =
    if-IsUsable (has_rows x.rows) _ x (push-IsUsable (set_selection _) x tt u) u
