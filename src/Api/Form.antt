-- ===== src/Api/Form.antt =====
-- api.js: a file and its attributes as a form (createKairoFileSource, appendFormValue).
pub mod Leaves
use elektrine.Base.{String, List, [], ◌∷◌, ◌++◌, if◌then◌else◌, ◌===◌, concat}
use elektrine.Api.Types.{
  Env, Json, null, boolean, number, text, array, object, Items, no_items, item, Fields, no_fields,
  field, FormEntry, text_entry,
}

-- `${field}[${key}]`
abbrev pub subfield : String → String → String
subfield name key = concat name (concat "[" (concat key "]"))

module _ (env : Env) where
  abbrev mutual
    pub append_form_value : String → Json → List FormEntry
    append_form_value name null = []
    append_form_value name (text s) = if s === "" then [] else text_entry name s ∷ []
    append_form_value name (array xs) = append_items name xs
    append_form_value name (object fs) = append_fields name fs
    append_form_value name (boolean b) = text_entry name (env.to_text (boolean b)) ∷ []
    append_form_value name (number t z) = text_entry name (env.to_text (number t z)) ∷ []

    pub append_items : String → Items → List FormEntry
    append_items name no_items = []
    append_items name (item v xs) = append_form_value (subfield name "") v ++ append_items name xs

    pub append_fields : String → Fields → List FormEntry
    append_fields name no_fields = []
    append_fields name (field key v fs) =
        append_form_value (subfield name key) v ++ append_fields name fs
