-- ===== src/Markdown/Safety.antt =====
-- The tags in the lines of a preview (markdownToHtml).
use elektrine.Base.{
  all_true, and_of, and_left, and_right, ◌≡◌, refl, Bool, true, false, Option, none, some, List, [],
  ◌∷◌, ◌++◌, if◌then◌else◌, inl, inr, Bool-cases, is_space,
}
use elektrine.Markdown.Text.{
  Text, codes, begins, split_at, is_empty, trim_text, drop_chars, join_lines,
}
use elektrine.Markdown.Inline.{strong, emphasis, inline_code, escape_html, process_markdown_inline}
use elektrine.Markdown.Lines.{
  ordered_item, list_item, plain_line, html_line, code_block, html_lines, markdown_lines,
}
use elektrine.Markdown.Tagged.{is_tagged, all_tagged, split_at-tagged, tagged_append}
use elektrine.Markdown.Trim.{is_solid}
use elektrine.Markdown.Marks.{escape_html-IsTagged, between-tagged, strong_parts-tagged}
use elektrine.Markdown.Links.{links-tagged}

-- The tags of a preview; the target of a link follows the opening one.
abbrev pub preview_tags : List Text
preview_tags =
    codes "<h1>"
    ∷ codes "</h1>"
    ∷ codes "<h2>"
    ∷ codes "</h2>"
    ∷ codes "<h3>"
    ∷ codes "</h3>"
    ∷ codes "<blockquote class=\"border-l-4 border-primary pl-4 italic\">"
    ∷ codes "</blockquote>"
    ∷ codes "<li>"
    ∷ codes "</li>"
    ∷ codes "<p>"
    ∷ codes "</p>"
    ∷ codes "<br>"
    ∷ codes "<pre>"
    ∷ codes "</pre>"
    ∷ codes "<strong>"
    ∷ codes "</strong>"
    ∷ codes "<em>"
    ∷ codes "</em>"
    ∷ codes "<code>"
    ∷ codes "</code>"
    ∷ codes "<a href=\""
    ∷ codes "</a>"
    ∷ codes "<ul class=\"list-disc list-inside\">"
    ∷ codes "</ul>"
    ∷ []

abbrev is_clean : Text → Bool
is_clean = is_tagged preview_tags

preview_tags-Solid : all_true is_solid preview_tags ≡ true
unfolding is_space
preview_tags-Solid = refl

inline-IsClean : (s : Text) → is_clean (process_markdown_inline s) ≡ true
inline-IsClean s =
    let escaped = escape_html-IsTagged preview_tags s in
    let strong_ok =
      strong_parts-tagged preview_tags refl refl refl (split_at b'*' (escape_html s))
        (split_at-tagged preview_tags b'*' (escape_html s) refl escaped) in
    let emphasis_ok =
      between-tagged preview_tags b'*' (codes "<em>") (codes "</em>") refl refl refl
        (split_at b'*' (strong (escape_html s)))
        (split_at-tagged preview_tags b'*' (strong (escape_html s)) refl strong_ok) in
    let code_ok =
      between-tagged preview_tags b'`' (codes "<code>") (codes "</code>") refl refl refl
        (split_at b'`' (emphasis (strong (escape_html s))))
        (split_at-tagged preview_tags b'`' (emphasis (strong (escape_html s))) refl emphasis_ok) in
    links-tagged preview_tags refl refl refl preview_tags-Solid refl refl 0
      (inline_code (emphasis (strong (escape_html s)))) code_ok

inside_clean :
    (l s r : Text)
    → is_clean l ≡ true
    → is_clean s ≡ true
    → is_clean r ≡ true
    → is_clean (l ++ s ++ r) ≡ true
inside_clean l s r h k m =
    tagged_append preview_tags (l ++ s) r (tagged_append preview_tags l s h k) m

if-IsClean :
    (b : Bool) (s r : Text)
    → is_clean s ≡ true
    → is_clean r ≡ true
    → is_clean (if b then s else r) ≡ true
if-IsClean true s r h k = h
if-IsClean false s r h k = k

list_item-IsClean : (s : Text) → is_clean (list_item s) ≡ true
list_item-IsClean s =
    inside_clean (codes "<li>") (process_markdown_inline s) (codes "</li>") refl (inline-IsClean s)
      refl

plain_line-IsClean : (line : Text) (o : Option Text) → is_clean (plain_line line o) ≡ true
plain_line-IsClean line (some item) = list_item-IsClean item
plain_line-IsClean line none =
    if-IsClean (is_empty (trim_text line)) (codes "<br>")
      (codes "<p>" ++ process_markdown_inline line ++ codes "</p>") refl
      (inside_clean (codes "<p>") (process_markdown_inline line) (codes "</p>") refl
        (inline-IsClean line) refl)

heading_clean :
    (l s r : Text)
    → is_clean l ≡ true
    → is_clean r ≡ true
    → is_clean (l ++ escape_html s ++ r) ≡ true
heading_clean l s r h k = inside_clean l (escape_html s) r h (escape_html-IsTagged preview_tags s) k

by_test {ℓ} : {A : Type ℓ} (b : Bool) → (b ≡ true → A) → (b ≡ false → A) → A
by_test true f g = f refl
by_test false f g = g refl

quote-IsClean :
    (s : Text)
    → is_clean (
        codes "<blockquote class=\"border-l-4 border-primary pl-4 italic\">"
        ++ process_markdown_inline s
        ++ codes "</blockquote>")
      ≡ true
quote-IsClean s =
    inside_clean (codes "<blockquote class=\"border-l-4 border-primary pl-4 italic\">")
      (process_markdown_inline s) (codes "</blockquote>") refl (inline-IsClean s) refl

html_line-IsClean : (line : Text) → is_clean (html_line line) ≡ true
html_line-IsClean line =
    by_test (begins (codes "### ") line)
      (λ e. rw e (heading_clean (codes "<h3>") (drop_chars 4 line) (codes "</h3>") refl refl))
      (λ e. rw e (
        by_test (begins (codes "## ") line)
          (λ e. rw e (heading_clean (codes "<h2>") (drop_chars 3 line) (codes "</h2>") refl refl))
          (λ e. rw e (
            by_test (begins (codes "# ") line)
              (λ e.
                rw e (heading_clean (codes "<h1>") (drop_chars 2 line) (codes "</h1>") refl refl))
              (λ e. rw e (
                by_test (begins (codes "> ") line) (λ e. rw e (quote-IsClean (drop_chars 2 line)))
                  (λ e. rw e (
                    by_test (begins (codes "- ") line)
                      (λ e. rw e (list_item-IsClean (drop_chars 2 line)))
                      (λ e. rw e (
                        by_test (begins (codes "* ") line)
                          (λ e. rw e (list_item-IsClean (drop_chars 2 line)))
                          (λ e. rw e (plain_line-IsClean line (ordered_item line)))))))))))))

pub join_lines-IsClean :
    (ss : List Text) → all_tagged preview_tags ss ≡ true → is_clean (join_lines ss) ≡ true
join_lines-IsClean [] h = refl
join_lines-IsClean (s ∷ []) h = and_left (is_clean s) true h
join_lines-IsClean (s ∷ t ∷ r) h =
    inside_clean s (10 ∷ []) (join_lines (t ∷ r))
      (and_left (is_clean s) (all_tagged preview_tags (t ∷ r)) h) refl
      (join_lines-IsClean (t ∷ r) (and_right (is_clean s) (all_tagged preview_tags (t ∷ r)) h))

code_block-IsClean :
    (ss : List Text) → all_tagged preview_tags ss ≡ true → is_clean (code_block ss) ≡ true
code_block-IsClean ss h =
    inside_clean (codes "<pre><code>") (join_lines ss) (codes "</code></pre>") refl
      (join_lines-IsClean ss h) refl

all_tagged-append :
    (ss rs : List Text)
    → all_tagged preview_tags ss ≡ true
    → all_tagged preview_tags rs ≡ true
    → all_tagged preview_tags (ss ++ rs) ≡ true
all_tagged-append [] rs h k = k
all_tagged-append (s ∷ ss) rs h k =
    and_of (is_clean s) (all_tagged preview_tags (ss ++ rs))
      (and_left (is_clean s) (all_tagged preview_tags ss) h)
      (all_tagged-append ss rs (and_right (is_clean s) (all_tagged preview_tags ss) h) k)

line_onto :
    (s : Text) (ss : List Text)
    → is_clean s ≡ true
    → all_tagged preview_tags ss ≡ true
    → all_tagged preview_tags (s ∷ ss) ≡ true
line_onto s ss = and_of (is_clean s) (all_tagged preview_tags ss)

abbrev AreClean : Option (List Text) → Type 0
AreClean none = Unit {0}
AreClean (some block) = all_tagged preview_tags block ≡ true

html_lines-AreClean :
    (o : Option (List Text)) (lines : List Text)
    → AreClean o
    → all_tagged preview_tags (html_lines o lines) ≡ true
html_lines-AreClean none [] h = refl
html_lines-AreClean (some []) [] h = refl
html_lines-AreClean (some (b ∷ bs)) [] h =
    line_onto (code_block (b ∷ bs)) [] (code_block-IsClean (b ∷ bs) h) refl
html_lines-AreClean none (line ∷ lines) h = elim (Bool-cases (begins (codes "```") line)) [
  | inl e ↦ rw e (html_lines-AreClean (some []) lines refl)
  | inr e ↦ rw e (
      line_onto (html_line line) (html_lines none lines) (html_line-IsClean line)
        (html_lines-AreClean none lines tt))
]
html_lines-AreClean (some block) (line ∷ lines) h = elim (Bool-cases (begins (codes "```") line)) [
  | inl e ↦ rw e (
      line_onto (code_block block) (html_lines none lines) (code_block-IsClean block h)
        (html_lines-AreClean none lines tt))
  | inr e ↦
      let line_ok = line_onto (escape_html line) [] (escape_html-IsTagged preview_tags line) refl in
      rw e (
        html_lines-AreClean (some (block ++ (escape_html line ∷ []))) lines
          (all_tagged-append block (escape_html line ∷ []) h line_ok))
]

-- In each html line of a preview, whatever the text, every `<` begins one of the tags that the
-- preview itself makes.
pub markdown_lines-AreTagged : (s : Text) → all_tagged preview_tags (markdown_lines s) ≡ true
markdown_lines-AreTagged [] = refl
markdown_lines-AreTagged (c ∷ s) = html_lines-AreClean none (split_at 10 (c ∷ s)) tt
