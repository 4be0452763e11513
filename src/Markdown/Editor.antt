-- ===== src/Markdown/Editor.antt =====
-- markdown_helpers.js: the buttons of an editor (insertMarkdownFormat) and its preview panel
-- (toggleMarkdownPreview). The focus is not modelled.
use elektrine.Base.{
  ℕ, ◌≡◌, refl, ◌+◌, ◌-◌, String, Bool, true, false, Option, none, some, [], ◌++◌, if◌then◌else◌,
  take, length, ◌===◌,
}
use elektrine.Markdown.Text.{Text, codes, begins, is_empty, drop_chars}
use elektrine.Markdown.Wrap.{markdown_to_html}

data Format : Type 0 where
  bold italic underline heading link list quote unknown : Format

-- The browser keeps `selection_start` at or before `selection_end`.
record TextArea : Type 0 where
  value : Text
  selection_start : ℕ
  selection_end : ℕ

abbrev selected_or : Text → String → Text
selected_or selected otherwise = if is_empty selected then codes otherwise else selected

abbrev replacement : Format → Text → Text
replacement bold s = codes "**" ++ selected_or s "bold text" ++ codes "**"
replacement italic s = codes "*" ++ selected_or s "italic text" ++ codes "*"
replacement underline s = codes "<u>" ++ selected_or s "underlined text" ++ codes "</u>"
replacement heading s = codes "# " ++ selected_or s "Heading"
replacement link s =
    let is_url = begins (codes "http") s in
    codes "["
    ++ (if is_url then codes "link text" else selected_or s "link text")
    ++ codes "]("
    ++ (if is_url then s else codes "https://example.com")
    ++ codes ")"
replacement list s = codes "- " ++ selected_or s "list item"
replacement quote s = codes "> " ++ selected_or s "quoted text"
replacement unknown s = []

-- The text that is inserted, and the cursor after it.
abbrev insert_markdown_format : Format → TextArea → TextArea
insert_markdown_format format area =
    let start = area.selection_start in
    let selected = take (area.selection_end - start) (drop_chars start area.value) in
    let inserted = replacement format selected in
    record {
      value = take start area.value ++ inserted ++ drop_chars area.selection_end area.value;
      selection_start = start + length inserted;
      selection_end = start + length inserted;
    }

insert_markdown_format_test :
    insert_markdown_format bold
      (record { value = codes "a bc d"; selection_start = 2; selection_end = 4 })
    ≡ record { value = codes "a **bc** d"; selection_start = 8; selection_end = 8 }
insert_markdown_format_test = refl

-- A panel and its content, both on the page.
record Panel : Type 0 where
  is_hidden : Bool
  html : Text

record Panels : Type 0 where
  preview : Option Panel
  reply_preview : Option Panel

abbrev toggle_panel : Text → Option Panel → Option Panel
toggle_panel value none = none
toggle_panel value (some panel) =
    if panel.is_hidden
    then some (record { is_hidden = false; html = markdown_to_html value })
    else some (record panel { is_hidden = true })

unfoldable toggle_markdown_preview : TextArea → (target_id : String) → Panels → Panels
toggle_markdown_preview area target_id panels =
    if target_id === "new-message-area"
    then record panels { reply_preview = toggle_panel area.value panels.reply_preview }
    else record panels { preview = toggle_panel area.value panels.preview }
