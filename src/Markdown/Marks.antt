-- ===== src/Markdown/Marks.antt =====
-- Strong and emphasised text, code, and the tags of a text (processMarkdownInline).
use elektrine.Base.{
  and_of, and_left, and_right, ℕ, ◌≡◌, refl, Bool, true, List, [], ◌∷◌, ◌++◌, if◌then◌else◌,
  Bool-cases, inl, inr, ◌==◌, not, ◌&&◌,
}
use elektrine.Markdown.Text.{Text, codes, replace_char}
use elektrine.Markdown.Inline.{strong_parts, between, escape_html}
use elektrine.Markdown.Tagged.{is_tagged, all_tagged, tagged_append, tagged_cons}

module _ (tags : List Text) where
  head_tagged :
      (s : Text) (ss : List Text) → all_tagged tags (s ∷ ss) ≡ true → is_tagged tags s ≡ true
  head_tagged s ss = and_left (is_tagged tags s) (all_tagged tags ss)

  tail_tagged :
      (s : Text) (ss : List Text) → all_tagged tags (s ∷ ss) ≡ true → all_tagged tags ss ≡ true
  tail_tagged s ss = and_right (is_tagged tags s) (all_tagged tags ss)

  pub around_tagged :
      (a l b r s : Text)
      → is_tagged tags a ≡ true
      → is_tagged tags l ≡ true
      → is_tagged tags b ≡ true
      → is_tagged tags r ≡ true
      → is_tagged tags s ≡ true
      → is_tagged tags (a ++ l ++ b ++ r ++ s) ≡ true
  around_tagged a l b r s ha hl hb hr hs =
      tagged_append tags (a ++ l ++ b ++ r) s
        (tagged_append tags (a ++ l ++ b) r
          (tagged_append tags (a ++ l) b (tagged_append tags a l ha hl) hb) hr)
        hs

  kept_tagged :
      (a l s : Text)
      → is_tagged tags a ≡ true
      → is_tagged tags l ≡ true
      → is_tagged tags s ≡ true
      → is_tagged tags (a ++ l ++ s) ≡ true
  kept_tagged a l s ha hl hs = tagged_append tags (a ++ l) s (tagged_append tags a l ha hl) hs

  module _ (d : ℕ) (l r : Text) (plain : is_tagged tags (d ∷ []) ≡ true)
      (open_ok : is_tagged tags l ≡ true) (close_ok : is_tagged tags r ≡ true) where
    pub between-tagged :
        (ss : List Text) → all_tagged tags ss ≡ true → is_tagged tags (between d l r ss) ≡ true
    between-tagged [] h = refl
    between-tagged (a ∷ []) h = head_tagged a [] h
    between-tagged (a ∷ [] ∷ s) h =
        kept_tagged a (d ∷ []) (between d l r ([] ∷ s)) (head_tagged a ([] ∷ s) h) plain
          (between-tagged ([] ∷ s) (tail_tagged a ([] ∷ s) h))
    between-tagged (a ∷ (c ∷ b) ∷ []) h =
        let rest = tail_tagged a ((c ∷ b) ∷ []) h in
        kept_tagged a (d ∷ []) (c ∷ b) (head_tagged a ((c ∷ b) ∷ []) h) plain
          (head_tagged (c ∷ b) [] rest)
    between-tagged (a ∷ (c ∷ b) ∷ e ∷ s) h =
        let rest = tail_tagged a ((c ∷ b) ∷ e ∷ s) h in
        around_tagged a l (c ∷ b) r (between d l r (e ∷ s)) (head_tagged a ((c ∷ b) ∷ e ∷ s) h)
          open_ok (head_tagged (c ∷ b) (e ∷ s) rest) close_ok
          (between-tagged (e ∷ s) (tail_tagged (c ∷ b) (e ∷ s) rest))

  module _ (star : is_tagged tags (codes "*") ≡ true)
      (open_ok : is_tagged tags (codes "<strong>") ≡ true)
      (close_ok : is_tagged tags (codes "</strong>") ≡ true) where
    pub strong_parts-tagged :
        (ss : List Text) → all_tagged tags ss ≡ true → is_tagged tags (strong_parts ss) ≡ true
    strong_parts-tagged [] h = refl
    strong_parts-tagged (a ∷ []) h = head_tagged a [] h
    strong_parts-tagged (a ∷ [] ∷ (c ∷ b) ∷ [] ∷ e ∷ r) h =
        let from_b =
          tail_tagged [] ((c ∷ b) ∷ [] ∷ e ∷ r) (tail_tagged a ([] ∷ (c ∷ b) ∷ [] ∷ e ∷ r) h) in
        around_tagged a (codes "<strong>") (c ∷ b) (codes "</strong>") (strong_parts (e ∷ r))
          (head_tagged a ([] ∷ (c ∷ b) ∷ [] ∷ e ∷ r) h) open_ok
          (head_tagged (c ∷ b) ([] ∷ e ∷ r) from_b) close_ok
          (strong_parts-tagged (e ∷ r)
            (tail_tagged [] (e ∷ r) (tail_tagged (c ∷ b) ([] ∷ e ∷ r) from_b)))
    strong_parts-tagged (a ∷ b ∷ r) h =
        kept_tagged a (codes "*") (strong_parts (b ∷ r)) (head_tagged a (b ∷ r) h) star
          (strong_parts-tagged (b ∷ r) (tail_tagged a (b ∷ r) h))

abbrev free : ℕ → Text → Bool
free c [] = true
free c (d ∷ s) = not (d == c) && free c s

free-IsTagged : (tags : List Text) (s : Text) → free b'<' s ≡ true → is_tagged tags s ≡ true
free-IsTagged tags [] h = refl
free-IsTagged tags (c ∷ s) h =
    tagged_cons tags c s (rw (and_left (not (c == b'<')) (free b'<' s) h) refl)
      (free-IsTagged tags s (and_right (not (c == b'<')) (free b'<' s) h))

free-append : (c : ℕ) (s r : Text) → free c s ≡ true → free c r ≡ true → free c (s ++ r) ≡ true
free-append c [] r h k = k
free-append c (d ∷ s) r h k =
    and_of (not (d == c)) (free c (s ++ r)) (and_left (not (d == c)) (free c s) h)
      (free-append c s r (and_right (not (d == c)) (free c s) h) k)

replace_char-Free : (c : ℕ) (by s : Text) → free c by ≡ true → free c (replace_char c by s) ≡ true
replace_char-Free c by [] h = refl
replace_char-Free c by (d ∷ s) h =
    free-append c (if d == c then by else d ∷ []) (replace_char c by s)
      (elim (Bool-cases (d == c)) [ inl e ↦ rw e h | inr e ↦ rw e (rw e refl) ])
      (replace_char-Free c by s h)

replace_char-keeps :
    (c e : ℕ) (by s : Text)
    → free c by ≡ true
    → free c s ≡ true
    → free c (replace_char e by s) ≡ true
replace_char-keeps c e by [] h k = refl
replace_char-keeps c e by (d ∷ s) h k =
    free-append c (if d == e then by else d ∷ []) (replace_char e by s)
      (elim (Bool-cases (d == e)) [
        | inl f ↦ rw f h
        | inr f ↦ rw f (and_of (not (d == c)) true (and_left (not (d == c)) (free c s) k) refl)
      ])
      (replace_char-keeps c e by s h (and_right (not (d == c)) (free c s) k))

abbrev html_opens : Text → Text
html_opens s = replace_char b'<' (codes "&lt;") (replace_char b'&' (codes "&amp;") s)

abbrev html_angles : Text → Text
html_angles s = replace_char b'>' (codes "&gt;") (html_opens s)

abbrev html_quotes : Text → Text
html_quotes s = replace_char b'"' (codes "&quot;") (html_angles s)

escape_html-Free : (s : Text) → free b'<' (escape_html s) ≡ true
escape_html-Free s = replace_char-keeps b'<' b'\'' (codes "&#39;") (html_quotes s) refl (
    replace_char-keeps b'<' b'"' (codes "&quot;") (html_angles s) refl (
      replace_char-keeps b'<' b'>' (codes "&gt;") (html_opens s) refl
        (replace_char-Free b'<' (codes "&lt;") (replace_char b'&' (codes "&amp;") s) refl)))

pub escape_html-IsTagged : (tags : List Text) (s : Text) → is_tagged tags (escape_html s) ≡ true
escape_html-IsTagged tags s = free-IsTagged tags (escape_html s) (escape_html-Free s)
