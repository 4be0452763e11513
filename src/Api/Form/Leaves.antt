-- ===== src/Api/Form/Leaves.antt =====
-- A form holds the scalars of a value, each under its path (appendFormValue).
use elektrine.Base.{
  ◌≡◌, refl, sym, ap, ◌∙◌, String, Bool, true, false, not, List, [], ◌∷◌, ◌++◌, ◌===◌,
  if◌then◌else◌, inl, inr, Bool-cases, All,
}
use elektrine.Api.Types.{
  Env, Json, null, boolean, number, text, array, object, Items, no_items, item, Fields, no_fields,
  field, FormEntry, text_entry,
}
use elektrine.Api.Form.{append_form_value, append_items, append_fields, subfield}

-- A scalar in a value, with the keys that lead to it; the key of an element of an array is empty.
pub record Leaf : Type 0 where
  pub keys : List String
  pub scalar : Json

abbrev below : String → List Leaf → List Leaf
below key [] = []
below key (l ∷ ls) = record { keys = key ∷ l.keys; scalar = l.scalar } ∷ below key ls

abbrev leaf : Json → List Leaf
leaf v = record { keys = []; scalar = v } ∷ []

abbrev mutual
  pub leaves : Json → List Leaf
  leaves (array xs) = leaves_items xs
  leaves (object fs) = leaves_fields fs
  leaves null = leaf null
  leaves (boolean b) = leaf (boolean b)
  leaves (number t z) = leaf (number t z)
  leaves (text s) = leaf (text s)

  pub leaves_items : Items → List Leaf
  leaves_items no_items = []
  leaves_items (item v xs) = below "" (leaves v) ++ leaves_items xs

  pub leaves_fields : Fields → List Leaf
  leaves_fields no_fields = []
  leaves_fields (field key v fs) = below key (leaves v) ++ leaves_fields fs

-- `null` and the empty text leave no trace.
abbrev pub is_present : Json → Bool
is_present null = false
is_present (text s) = not (s === "")
is_present _ = true

abbrev pub name_of : String → List String → String
name_of name [] = name
name_of name (key ∷ keys) = name_of (subfield name key) keys

module _ (env : Env) where
  abbrev written : Json → String
  written (text s) = s
  written v = env.to_text v

  abbrev pub entries : String → List Leaf → List FormEntry
  entries name [] = []
  entries name (l ∷ ls) =
      let rest = entries name ls in
      if is_present l.scalar
      then text_entry (name_of name l.keys) (written l.scalar) ∷ rest
      else rest

  entries-below :
      (name key : String) (ls rs : List Leaf)
      → entries name (below key ls ++ rs) ≡ entries (subfield name key) ls ++ entries name rs
  entries-below name key [] rs = refl
  entries-below name key (l ∷ ls) rs = elim (Bool-cases (is_present l.scalar)) [
    | inl e ↦ rw e (
        ap (λ r. text_entry (name_of (subfield name key) l.keys) (written l.scalar) ∷ r)
          (entries-below name key ls rs))
    | inr e ↦ rw e (entries-below name key ls rs)
  ]

  entries-All :
      (P : FormEntry → Type 0) (name : String) (ls : List Leaf)
      → ((n v : String) → P (text_entry n v))
      → All P (entries name ls)
  entries-All P name [] f = tt
  entries-All P name (l ∷ ls) f = elim (Bool-cases (is_present l.scalar)) [
    | inl e ↦ rw e (f (name_of name l.keys) (written l.scalar), entries-All P name ls f)
    | inr e ↦ rw e (entries-All P name ls f)
  ]

  mutual
    append_form_value-entries :
        (name : String) (v : Json) → append_form_value env name v ≡ entries name (leaves v)
    append_form_value-entries name null = refl
    append_form_value-entries name (boolean b) = refl
    append_form_value-entries name (number t z) = refl
    append_form_value-entries name (text s) = elim (Bool-cases (s === "")) [
      | inl e ↦ rw e refl
      | inr e ↦ rw e refl
    ]
    append_form_value-entries name (array xs) = append_items-entries name xs
    append_form_value-entries name (object fs) = append_fields-entries name fs

    append_items-entries :
        (name : String) (xs : Items) → append_items env name xs ≡ entries name (leaves_items xs)
    append_items-entries name no_items = refl
    append_items-entries name (item v xs) =
        ap (λ r. r ++ append_items env name xs) (append_form_value-entries (subfield name "") v)
        ∙ ap (λ r. entries (subfield name "") (leaves v) ++ r) (append_items-entries name xs)
        ∙ sym (entries-below name "" (leaves v) (leaves_items xs))

    append_fields-entries :
        (name : String) (fs : Fields) → append_fields env name fs ≡ entries name (leaves_fields fs)
    append_fields-entries name no_fields = refl
    append_fields-entries name (field key v fs) =
        ap (λ r. r ++ append_fields env name fs) (append_form_value-entries (subfield name key) v)
        ∙ ap (λ r. entries (subfield name key) (leaves v) ++ r) (append_fields-entries name fs)
        ∙ sym (entries-below name key (leaves v) (leaves_fields fs))

  -- A form gets one entry for each scalar of a value that is neither null nor the empty text, in
  -- their order, under the field with the scalar's keys in brackets.
  pub append_form_value_lem :
      (name : String) (v : Json) → append_form_value env name v ≡ entries name (leaves v)
  append_form_value_lem = append_form_value-entries

  -- The attributes of a file become texts alone.
  pub append_fields-All :
      (P : FormEntry → Type 0) (name : String) (fs : Fields)
      → ((n v : String) → P (text_entry n v))
      → All P (append_fields env name fs)
  append_fields-All P name fs f =
      rw (append_fields-entries name fs) (entries-All P name (leaves_fields fs) f)
