-- ===== src/Markdown/Lines.antt =====
-- markdown_helpers.js: the lines of a preview (markdownToHtml), before the items of a list are
-- wrapped.
use elektrine.Base.{true, false, Option, none, some, List, [], ◌∷◌, ◌++◌, if◌then◌else◌}
use elektrine.Markdown.Text.{
  Text, codes, begins, split_at, is_empty, is_digit, trim_text, drop_while, drop_chars, join_lines,
}
use elektrine.Markdown.Inline.{escape_html, process_markdown_inline}

-- `/^\d+\. /`, and the text without it.
abbrev pub ordered_item : Text → Option Text
ordered_item [] = none
ordered_item (c ∷ s) =
    let rest = drop_while is_digit s in
    if is_digit c then if begins (codes ". ") rest then some (drop_chars 2 rest) else none else none

abbrev pub list_item : Text → Text
list_item s = codes "<li>" ++ process_markdown_inline s ++ codes "</li>"

abbrev pub plain_line : Text → Option Text → Text
plain_line line (some item) = list_item item
plain_line line none =
    if is_empty (trim_text line)
    then codes "<br>"
    else codes "<p>" ++ process_markdown_inline line ++ codes "</p>"

abbrev pub html_line : Text → Text
html_line line =
    if begins (codes "### ") line
    then codes "<h3>" ++ escape_html (drop_chars 4 line) ++ codes "</h3>"
    else if begins (codes "## ") line
    then codes "<h2>" ++ escape_html (drop_chars 3 line) ++ codes "</h2>"
    else if begins (codes "# ") line
    then codes "<h1>" ++ escape_html (drop_chars 2 line) ++ codes "</h1>"
    else if begins (codes "> ") line
    then codes "<blockquote class=\"border-l-4 border-primary pl-4 italic\">"
      ++ process_markdown_inline (drop_chars 2 line)
      ++ codes "</blockquote>"
    else if begins (codes "- ") line
    then list_item (drop_chars 2 line)
    else if begins (codes "* ") line
    then list_item (drop_chars 2 line)
    else plain_line line (ordered_item line)

abbrev pub code_block : List Text → Text
code_block block = codes "<pre><code>" ++ join_lines block ++ codes "</code></pre>"

-- `htmlLines`, from inside a code block (with its lines so far) or outside.
abbrev pub html_lines : Option (List Text) → List Text → List Text
html_lines none [] = []
html_lines (some []) [] = []
html_lines (some (b ∷ bs)) [] = code_block (b ∷ bs) ∷ []
html_lines none (line ∷ lines) = elim (begins (codes "```") line) [
  | true ↦ html_lines (some []) lines
  | false ↦ html_line line ∷ html_lines none lines
]
html_lines (some block) (line ∷ lines) = elim (begins (codes "```") line) [
  | true ↦ code_block block ∷ html_lines none lines
  | false ↦ html_lines (some (block ++ (escape_html line ∷ []))) lines
]

-- Of a text that is not empty; the empty text gives no html.
abbrev pub markdown_lines : Text → List Text
markdown_lines s = if is_empty s then [] else html_lines none (split_at 10 s)
