-- ===== src/Markdown/Anchors.antt =====
-- The links in a line of a preview (the replacement of links in processMarkdownInline).
use elektrine.Base.{
  ℕ, zero, suc, ◌+◌, ◌≡◌, refl, sym, ap, Option, none, some, List, [], ◌∷◌, ◌++◌, inl, inr,
  Option-cases, length,
}
use mathlib.Core.Path.{subst}
use elektrine.Markdown.Text.{Text, codes}
use elektrine.Markdown.Href.{sanitize_markdown_href}
use elektrine.Markdown.Inline.{
  Link, match_link, link_html, links, matched_text, process_markdown_inline, inline_code, emphasis,
  strong, escape_html,
}
use elektrine.Markdown.Schemes.{sanitize_markdown_href-trim}
use elektrine.Markdown.Links.{links-none, links-some, match_link-Both}
use elektrine.Markdown.Quotes.{
  Unquoted, Unquoted-later, Unquoted-head, Unquoted-append, up_to-Unquoted, trim_text-Unquoted,
  inline-Unquoted, three-Unquoted,
}

-- A part of a line: a text, or a link with the target that the author wrote and the one it has.
pub data Piece : Type 0 where
  words : Text → Piece
  anchor : (written href label : Text) → Piece

abbrev pub render : Piece → Text
render (words text) = text
render (anchor written href label) =
    codes "<a href=\""
    ++ href
    ++ codes "\" class=\"text-primary underline\" target=\"_blank\" rel=\"noopener noreferrer\">"
    ++ label
    ++ codes "</a>"

abbrev pub render_all : List Piece → Text
render_all [] = []
render_all (p ∷ ps) = render p ++ render_all ps

-- No part has a double quote of its own, and a link's target is one that the sanitizer kept.
abbrev pub IsFine : Piece → Type 0
IsFine (words text) = Unquoted text
IsFine (anchor written href label) =
    (sanitize_markdown_href written ≡ some href) × Unquoted href × Unquoted label

abbrev pub AllFine : List Piece → Type 0
AllFine [] = Unit {0}
AllFine (p ∷ ps) = IsFine p × AllFine ps

abbrev pub IsLinked : Text → Type 0
IsLinked t = (ps : List Piece) × AllFine ps × (render_all ps ≡ t)

IsLinked-onto : (p : Piece) (t : Text) → IsFine p → IsLinked t → IsLinked (render p ++ t)
IsLinked-onto p t h (ps, fine, same) = (p ∷ ps, (h, fine), ap (λ x. render p ++ x) same)

link-IsLinked :
    (l : Link) (o : Option Text) (t : Text)
    → sanitize_markdown_href l.target ≡ o
    → Unquoted l.label × Unquoted l.target
    → IsLinked t
    → IsLinked (link_html l o ++ t)
link-IsLinked l none t e (label_ok, target_ok) h =
    IsLinked-onto (words (matched_text l)) t
      (Unquoted-append (codes "[" ++ l.label ++ codes "](" ++ l.target) (codes ")")
        (three-Unquoted (codes "[" ++ l.label) (codes "](") l.target
          (Unquoted-append (codes "[") l.label refl label_ok) refl target_ok)
        refl)
      h
link-IsLinked l (some u) t e (label_ok, target_ok) h =
    let kept =
      subst Unquoted (sanitize_markdown_href-trim l.target u e)
        (trim_text-Unquoted l.target target_ok) in
    IsLinked-onto (anchor l.target u l.label) t (e, kept, label_ok) h

links-IsLinked : (k : ℕ) (s : Text) → Unquoted s → IsLinked (links k s)
links-IsLinked k [] h = ([], tt, refl)
links-IsLinked (suc k) (c ∷ s) h = links-IsLinked k s (Unquoted-later c s h)
links-IsLinked zero (c ∷ s) h = elim (Option-cases (match_link (c ∷ s))) [
  | inl e ↦ subst IsLinked (sym (links-none c s e)) (
      IsLinked-onto (words (c ∷ [])) (links 0 s) (Unquoted-head c s h)
        (links-IsLinked 0 s (Unquoted-later c s h)))
  | inr (l, e) ↦
      let rest = length (l.label ++ l.target) + 3 in
      let parts =
        match_link-Both Unquoted Unquoted-later (up_to-Unquoted b']') (up_to-Unquoted b')') (c ∷ s)
          l h e in
      subst IsLinked (sym (links-some c s l e)) (
        link-IsLinked l (sanitize_markdown_href l.target) (links rest s) refl parts
          (links-IsLinked rest s (Unquoted-later c s h)))
]

pub process_markdown_inline-IsLinked : (line : Text) → IsLinked (process_markdown_inline line)
process_markdown_inline-IsLinked line =
    links-IsLinked 0 (inline_code (emphasis (strong (escape_html line)))) (inline-Unquoted line)
