-- ===== src/Markdown/Inline.antt =====
-- markdown_helpers.js: what a line of text becomes (processMarkdownInline, escapeHtml). The regular
-- expressions are read on the parts of the text between the delimiters.
use elektrine.Base.{
  ℕ, suc, zero, ◌+◌, Option, none, some, List, [], ◌∷◌, ◌++◌, if◌then◌else◌, ◌==◌, length,
}
use elektrine.Markdown.Text.{Text, codes, replace_char, split_at, is_empty}
use elektrine.Markdown.Href.{sanitize_markdown_href}

abbrev pub escape_html : Text → Text
escape_html s = replace_char b'\'' (codes "&#39;") (
    replace_char b'"' (codes "&quot;") (
      replace_char b'>' (codes "&gt;")
        (replace_char b'<' (codes "&lt;") (replace_char b'&' (codes "&amp;") s))))

-- `/\*\*([^*]+)\*\*/g`
abbrev pub strong_parts : List Text → Text
strong_parts [] = []
strong_parts (a ∷ []) = a
strong_parts (a ∷ [] ∷ (c ∷ b) ∷ [] ∷ e ∷ r) =
    a ++ codes "<strong>" ++ (c ∷ b) ++ codes "</strong>" ++ strong_parts (e ∷ r)
strong_parts (a ∷ b ∷ r) = a ++ codes "*" ++ strong_parts (b ∷ r)

-- `/X([^X]+)X/g`, for one delimiter X.
abbrev pub between : ℕ → Text → Text → List Text → Text
between d l r [] = []
between d l r (a ∷ []) = a
between d l r (a ∷ [] ∷ s) = a ++ (d ∷ []) ++ between d l r ([] ∷ s)
between d l r (a ∷ (c ∷ b) ∷ []) = a ++ (d ∷ []) ++ (c ∷ b)
between d l r (a ∷ (c ∷ b) ∷ e ∷ s) = a ++ l ++ (c ∷ b) ++ r ++ between d l r (e ∷ s)

abbrev pub emphasis : Text → Text
emphasis s = between b'*' (codes "<em>") (codes "</em>") (split_at b'*' s)

abbrev pub strong : Text → Text
strong s = strong_parts (split_at b'*' s)

abbrev pub inline_code : Text → Text
inline_code s = between b'`' (codes "<code>") (codes "</code>") (split_at b'`' s)

-- What stands before and after the first such character.
abbrev pub up_to : ℕ → Text → Option (Text × Text)
up_to d [] = none
up_to d (c ∷ s) =
    (λ (rest : Option (Text × Text)).
        if c == d then some ([], s) else elim rest [ none ↦ none | some r ↦ some (c ∷ r.0, r.1) ])
      (up_to d s)

-- `label` and `href` of a match that starts here.
pub record Link : Type 0 where
  pub label : Text
  pub target : Text

abbrev pub target_found : Text → Option (Text × Text) → Option Link
target_found label none = none
target_found label (some r) =
    if is_empty r.0 then none else some (record { label = label; target = r.0 })

abbrev pub link_target : Text → Text → Option Link
link_target label [] = none
link_target label (c ∷ s) = if c == b'(' then target_found label (up_to b')' s) else none

abbrev pub label_found : Option (Text × Text) → Option Link
label_found none = none
label_found (some r) = if is_empty r.0 then none else link_target r.0 r.1

-- `/\[([^\]]+)\]\(([^\)]+)\)/`, at the start of the text.
abbrev pub match_link : Text → Option Link
match_link [] = none
match_link (c ∷ s) = if c == b'[' then label_found (up_to b']' s) else none

abbrev pub matched_text : Link → Text
matched_text l = codes "[" ++ l.label ++ codes "](" ++ l.target ++ codes ")"

abbrev pub link_attributes : Text
link_attributes =
    codes "\" class=\"text-primary underline\" target=\"_blank\" rel=\"noopener noreferrer\">"

-- What the matched text becomes.
abbrev pub link_html : Link → Option Text → Text
link_html l none = matched_text l
link_html l (some href) = codes "<a href=\"" ++ href ++ link_attributes ++ l.label ++ codes "</a>"

-- After a match, that many characters are passed over.
abbrev pub links : ℕ → Text → Text
links k [] = []
links (suc k) (c ∷ s) = links k s
links zero (c ∷ s) = elim (match_link (c ∷ s)) [
  | none ↦ c ∷ links 0 s
  | some l ↦
      link_html l (sanitize_markdown_href l.target) ++ links (length (l.label ++ l.target) + 3) s
]

abbrev pub process_markdown_inline : Text → Text
process_markdown_inline s = links 0 (inline_code (emphasis (strong (escape_html s))))
