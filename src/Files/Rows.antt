-- ===== src/Files/Rows.antt =====
-- file_explorer_hook.js: the rows, the active one, the selection and the width of the tree.
use elektrine.Base.{
  ℕ, zero, suc, ◌+◌, ◌-◌, min, String, Bool, true, false, not, Option, none, some, List, [], ◌∷◌,
  ◌++◌, map, if◌then◌else◌, ltz, length, take, get_elem?, truthy, text_of, ℤ, pos, negsuc, sub_ℕ,
  pos_part, neg_part, ◌||◌,
}
use elektrine.Files.Types.{
  Row, Effect, set_selection, open_row, focus_row, Explorer, min_of, max_of,
}

abbrev pub has_rows : List Row → Bool
has_rows [] = false
has_rows (r ∷ rs) = true

abbrev pub push : Effect → Explorer → Explorer
push e x = record x { effects = x.effects ++ e ∷ [] }

-- Of integers.
abbrev pub add : ℤ → ℤ → ℤ
add a b = sub_ℕ (pos_part a + pos_part b) (neg_part a + neg_part b)

abbrev pub negative : ℤ → Bool
negative i = ltz i (pos 0)

-- `Array.prototype.slice`, whose negative indices count from the end.
abbrev slice_index : ℕ → ℤ → ℕ
slice_index n (pos i) = min i n
slice_index n (negsuc i) = n - suc i

abbrev drop {ℓ} : {A : Type ℓ} → ℕ → List A → List A
drop zero xs = xs
drop (suc n) [] = []
drop (suc n) (x ∷ xs) = drop n xs

abbrev pub slice {ℓ} : {A : Type ℓ} → ℤ → ℤ → List A → List A
slice start end xs =
    let first = slice_index (length xs) start in
    take (slice_index (length xs) end - first) (drop first xs)

abbrev pub min_width : ℤ
min_width = pos 224

abbrev pub max_width : ℤ
max_width = pos 480

unfoldable pub apply_tree_width : ℤ → Explorer → Explorer
apply_tree_width width x =
    let clamped = max_of min_width (min_of width max_width) in
    if x.has_tree_layout
    then record x { tree_width = some clamped; saved_width = some clamped }
    else x

-- Of a saved text, the number that it is, if that is finite.
unfoldable pub restore_tree_width : Option ℤ → Explorer → Explorer
unfolding apply_tree_width
restore_tree_width none x = x
restore_tree_width (some width) x = apply_tree_width width x

abbrev pub last_index : Explorer → ℤ
last_index x = sub_ℕ (length x.rows) 1

abbrev pub focused : Bool → ℤ → Explorer → Explorer
focused true i x = push (focus_row i) x
focused false i x = x

abbrev pub bounded : ℤ → Explorer → ℤ
bounded index x = max_of (pos 0) (min_of index (last_index x))

abbrev pub activate : List Row → ℤ → Bool → Explorer → Explorer
activate [] index focus x = x
activate (row ∷ rows) index focus x =
    focused focus (bounded index x) (record x { active_row_index = bounded index x })

-- A row's `tabIndex` is 0 exactly if it is the active one.
unfoldable pub set_active_row : ℤ → (focus : Bool) → Explorer → Explorer
set_active_row index focus x = activate x.rows index focus x

-- The page's rows are now these.
unfoldable pub refresh_rows : List Row → Explorer → Explorer
unfolding set_active_row
refresh_rows [] x = record x { rows = []; active_row_index = negsuc 0; anchor_row_index = none }
refresh_rows (row ∷ rows) x =
    let shown = record x { rows = row ∷ rows } in
    if negative x.active_row_index || not (ltz x.active_row_index (pos (length (row ∷ rows))))
    then set_active_row (pos 0) false shown
    else shown

abbrev pub anchor_of : Explorer → ℤ
anchor_of x = elim x.anchor_row_index [ none ↦ x.active_row_index | some i ↦ i ]

abbrev token_of : Row → String
token_of r = r.token

unfoldable pub select_range_to : ℤ → Explorer → Explorer
select_range_to target x =
    let start = min_of (anchor_of x) target in
    let end = max_of (anchor_of x) target in
    if has_rows x.rows
    then push (set_selection (map token_of (slice start (add end (pos 1)) x.rows))) x
    else x

abbrev selected_tokens : List Row → List String
selected_tokens [] = []
selected_tokens (r ∷ rs) = if r.selected then r.token ∷ selected_tokens rs else selected_tokens rs

unfoldable pub get_selected_tokens : Explorer → List String
get_selected_tokens x = selected_tokens x.rows

abbrev or_absent : Option String → Option String
or_absent o = if truthy (text_of o) then o else none

abbrev pub opened : Option Row → Explorer → Explorer
opened none x = x
opened (some r) x =
    if truthy (text_of r.open_event)
    then push (open_row (text_of r.open_event) (or_absent r.open_path) (or_absent r.open_id)) x
    else x

abbrev pub row_at : ℤ → Explorer → Option Row
row_at (pos i) x = get_elem? x.rows i
row_at (negsuc i) x = none

unfoldable pub open_row_at : ℤ → Explorer → Explorer
open_row_at i x = opened (row_at i x) x
