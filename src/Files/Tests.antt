-- ===== src/Files/Tests.antt =====
-- The file explorer on concrete events.
use elektrine.Base.{◌≡◌, refl, true, false, none, some, List, [], ◌∷◌, String, pos}
use elektrine.Files.Types.{Row, set_selection, focus_row}
use elektrine.Files.Rows.{set_active_row}
use elektrine.Files.Keys.{Modifiers}
use elektrine.Files.Machine.{Event, click, key_down, updated, mounted, run}
use elektrine.Files.Usable.{IsUsable}
use elektrine.Files.Events.{run-IsUsable}

abbrev row : String → Row
row token = record {
  token = token;
  selected = false;
  kind = "file";
  open_event = none;
  open_path = none;
  open_id = none;
}

abbrev no_keys : Modifiers
no_keys = record { shift_key = false; meta_key = false; ctrl_key = false; alt_key = false }

abbrev with_shift : Modifiers
with_shift = record no_keys { shift_key = true }

abbrev shift_up : Event
shift_up =
    key_down (record { key = "ArrowUp"; lower = "arrowup"; modifiers = with_shift; typing = false })

abbrev rows : List Row
rows = row "a" ∷ row "b" ∷ row "c" ∷ []

abbrev events : List Event
events = click (some 2) no_keys ∷ shift_up ∷ updated (row "a" ∷ []) ∷ []

-- A click on the last row and Shift with the arrow select the last two.
range_test :
    (run (click (some 2) no_keys ∷ shift_up ∷ []) (mounted true none rows)).effects
    ≡ focus_row (pos 2)
      ∷ set_selection ("c" ∷ [])
      ∷ focus_row (pos 1)
      ∷ set_selection ("b" ∷ "c" ∷ [])
      ∷ []
unfolding run mounted set_active_row
range_test = refl

run-IsUsable_example : IsUsable (run events (mounted true (some (pos 900)) rows))
run-IsUsable_example = run-IsUsable true (some (pos 900)) rows events
