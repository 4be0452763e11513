-- ===== src/Markdown/Wrap.antt =====
-- markdown_helpers.js: the html of a preview, the runs of list items wrapped (the end of
-- markdownToHtml).
pub mod Tagged
use elektrine.Base.{
  ℕ, zero, suc, Bool, true, false, ◌||◌, Option, none, some, [], ◌∷◌, ◌++◌, if◌then◌else◌, ◌==◌,
  refl, ◌≡◌,
}
use elektrine.Markdown.Text.{Text, codes, begins, drop_chars, join_lines}
use elektrine.Markdown.Lines.{markdown_lines}

abbrev list_start : Text
list_start = codes "<ul class=\"list-disc list-inside\">"

abbrev list_end : Text
list_end = codes "</ul>"

-- What `.` does not match.
abbrev ends_line : ℕ → Bool
ends_line c = c == 10 || c == 13 || c == 0x2028 || c == 0x2029

-- `.*<\/li>`: the characters up to the last closing tag of the line.
abbrev last_close : Text → Option ℕ
last_close [] = none
last_close (c ∷ s) =
    let rest = last_close s in
    if ends_line c then none else elim rest [
      | some k ↦ some (suc k)
      | none ↦ if begins (codes "</li>") (c ∷ s) then some 5 else none
    ]

-- `n + k`
abbrev skip : ℕ → ℕ → ℕ
skip zero k = k
skip (suc n) k = suc (skip n k)

-- `<li>.*<\/li>\n?`: the characters of an item that begins here.
abbrev item_length : Text → Option ℕ
item_length s =
    if begins (codes "<li>") s
    then elim (last_close (drop_chars 4 s)) [
      | none ↦ none
      | some k ↦
          if begins (10 ∷ []) (drop_chars (skip 4 k) s)
          then some (skip 4 (suc k))
          else some (skip 4 k)
    ]
    else none

-- `replace(/(<li>.*<\/li>\n?)+/g, ...)`: `left` characters of an item are still to be copied, and
-- `inside` says whether a list is open.
abbrev wrap_items : (left : ℕ) (inside : Bool) → Text → Text
wrap_items left inside [] = if inside then list_end else []
wrap_items (suc left) inside (c ∷ s) = c ∷ wrap_items left inside s
wrap_items zero inside (c ∷ s) = elim (item_length (c ∷ s)) [
  | some (suc left) ↦ (if inside then [] else list_start) ++ c ∷ wrap_items left true s
  | some zero ↦ (if inside then list_end else []) ++ c ∷ wrap_items 0 false s
  | none ↦ (if inside then list_end else []) ++ c ∷ wrap_items 0 false s
]

abbrev pub markdown_to_html : Text → Text
markdown_to_html s = wrap_items 0 false (join_lines (markdown_lines s))

wrap_items_test :
    wrap_items 0 false (codes "<p>a</p>\n<li>b</li>\n<li>c</li>\n<br>\n<li>d</li>")
    ≡ codes
        "<p>a</p>\n<ul class=\"list-disc list-inside\"><li>b</li>\n<li>c</li>\n</ul><br>\n<ul class=\"list-disc list-inside\"><li>d</li></ul>"
wrap_items_test = refl
