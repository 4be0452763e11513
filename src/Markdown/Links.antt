-- ===== src/Markdown/Links.antt =====
-- Links and the tags of a text (the replacement of links in processMarkdownInline).
use mathlib.Core.Path.{subst}
use elektrine.Base.{
  same_some, none-some, if-some, all_true, and_of, and_left, and_right, ℕ, Bool, ◌+◌, suc, zero,
  ◌≡◌, refl, sym, ap, ◌∙◌, true, false, not, Option, none, some, List, [], ◌∷◌, ◌++◌, if◌then◌else◌,
  ◌==◌, arith, inl, inr, Option-cases, length,
}
use elektrine.Markdown.Text.{Text, codes, begins, is_empty}
use elektrine.Markdown.Href.{sanitize_markdown_href}
use elektrine.Markdown.Inline.{
  Link, target_found, link_target, label_found, match_link, link_attributes, link_html, links,
  up_to,
}
use elektrine.Markdown.Schemes.{sanitize_markdown_href-trim}
use elektrine.Markdown.Tagged.{
  is_tagged, all_lack, lacks, stands_mono, begins_any-step, tagged_head, tagged_tail, tagged_cons,
  tagged_append,
}
use elektrine.Markdown.Marks.{around_tagged}
use elektrine.Markdown.Trim.{is_solid, up_to-tagged, trim_text-tagged}

-- No match starts at another character than an opening bracket.
match_link-none : (c : ℕ) (s : Text) → (c == b'[') ≡ false → match_link (c ∷ s) ≡ none
match_link-none c s h = rw h refl

pub links-none : (c : ℕ) (s : Text) → match_link (c ∷ s) ≡ none → links 0 (c ∷ s) ≡ c ∷ links 0 s
links-none c s h = rw (h, links) refl

pub links-some :
    (c : ℕ) (s : Text) (l : Link)
    → match_link (c ∷ s) ≡ some l
    → links 0 (c ∷ s)
      ≡ link_html l (sanitize_markdown_href l.target) ++ links (length (l.label ++ l.target) + 3) s
links-some c s l h = rw (h, links) refl

begins-links : (t s : Text) → lacks b'[' t ≡ true → begins t s ≡ true → begins t (links 0 s) ≡ true
begins-links [] s l h = refl
begins-links (c ∷ t) [] l h = ground arith
begins-links (c ∷ t) (e ∷ s) l h =
    let same = and_left (c == e) (begins t s) h in
    let other = and_left (not (c == b'[')) (lacks b'[' t) l in
    let k : (e == b'[') ≡ false = ground arith in
    ap (begins (c ∷ t)) (links-none e s (match_link-none e s k))
    ∙ and_of (c == e) (begins t (links 0 s)) same (
        begins-links t s (and_right (not (c == b'[')) (lacks b'[' t) l)
          (and_right (c == e) (begins t s) h))

begins-links_after :
    (c : ℕ) (s t : Text)
    → lacks b'[' t ≡ true
    → begins t (c ∷ s) ≡ true
    → begins t (c ∷ links 0 s) ≡ true
begins-links_after c s [] l h = refl
begins-links_after c s (x ∷ t) l h =
    and_of (x == c) (begins t (links 0 s)) (and_left (x == c) (begins t s) h) (
      begins-links t s (and_right (not (x == b'[')) (lacks b'[' t) l)
        (and_right (x == c) (begins t s) h))

unless-taken {ℓ} :
    {A : Type ℓ} (b : Bool) (y : Option A) (s : A) → (if b then none else y) ≡ some s → y ≡ some s
unless-taken true y s h = none-some s h
unless-taken false y s h = h

unless-some {ℓ} : {A : Type ℓ} (b : Bool) (x s : A) → (if b then none else some x) ≡ some s → x ≡ s
unless-some b x s h = same_some x s (unless-taken b (some x) s h)

none_found {ℓ} : {A : Type ℓ} {l : Link} → ◌≡◌ {A = Option Link} none (some l) → A
none_found h = absurd cc

-- A predicate that the parts of a match have when the text has it.
module _ (P : Text → Type 0) (later : (c : ℕ) (s : Text) → P (c ∷ s) → P s)
    (cut_label : (s : Text) (r : Text × Text) → P s → up_to b']' s ≡ some r → P r.0 × P r.1)
    (cut_target : (s : Text) (r : Text × Text) → P s → up_to b')' s ≡ some r → P r.0 × P r.1) where
  abbrev Both : Link → Type 0
  Both l = P l.label × P l.target

  target_found-Both :
      (label : Text) (o : Option (Text × Text)) (l : Link)
      → P label
      → ((r : Text × Text) → o ≡ some r → P r.0)
      → target_found label o ≡ some l
      → Both l
  target_found-Both label none l h f e = none_found e
  target_found-Both label (some r) l h f e =
      let same = unless-some (is_empty r.0) (record { label = label; target = r.0 }) l e in
      (subst (λ x. P x.label) same h, subst (λ x. P x.target) same (f r refl))

  link_target-Both :
      (label s : Text) (l : Link) → P label → P s → link_target label s ≡ some l → Both l
  link_target-Both label [] l h k e = none_found e
  link_target-Both label (c ∷ s) l h k e =
      target_found-Both label (up_to b')' s) l h (λ r f. (cut_target s r (later c s k) f).0)
        (if-some (target_found label (up_to b')' s)) (c == b'(') l e).1

  label_found-Both :
      (o : Option (Text × Text)) (l : Link)
      → ((r : Text × Text) → o ≡ some r → P r.0 × P r.1)
      → label_found o ≡ some l
      → Both l
  label_found-Both none l f e = none_found e
  label_found-Both (some r) l f e =
      let (label_ok, rest_ok) = f r refl in
      link_target-Both r.0 r.1 l label_ok rest_ok
        (unless-taken (is_empty r.0) (link_target r.0 r.1) l e)

  pub match_link-Both : (s : Text) (l : Link) → P s → match_link s ≡ some l → Both l
  match_link-Both [] l h e = none_found e
  match_link-Both (c ∷ s) l h e =
      label_found-Both (up_to b']' s) l (λ r f. cut_label s r (later c s h) f)
        (if-some (label_found (up_to b']' s)) (c == b'[') l e).1

module _ (tags : List Text) (no_bracket : all_lack b'[' tags ≡ true)
    (no_closing : all_lack b']' tags ≡ true) (no_parenthesis : all_lack b')' tags ≡ true)
    (solid : all_true is_solid tags ≡ true) (open_ok : is_tagged tags (codes "<a href=\"") ≡ true)
    (close_ok : is_tagged tags (codes "</a>") ≡ true) where
  abbrev AreTagged : Link → Type 0
  AreTagged l = (is_tagged tags l.label ≡ true) × (is_tagged tags l.target ≡ true)

  match_link-tagged :
      (s : Text) (l : Link) → is_tagged tags s ≡ true → match_link s ≡ some l → AreTagged l
  match_link-tagged =
      match_link-Both (λ s. is_tagged tags s ≡ true) (tagged_tail tags)
        (λ s r. up_to-tagged tags b']' s r no_closing)
        (λ s r. up_to-tagged tags b')' s r no_parenthesis)

  link_html-tagged :
      (l : Link) (o : Option Text)
      → AreTagged l
      → ((u : Text) → o ≡ some u → is_tagged tags u ≡ true)
      → is_tagged tags (link_html l o) ≡ true
  link_html-tagged l none h f =
      around_tagged tags (codes "[") l.label (codes "](") l.target (codes ")") refl h.0 refl h.1
        refl
  link_html-tagged l (some u) h f =
      around_tagged tags (codes "<a href=\"") u link_attributes l.label (codes "</a>") open_ok
        (f u refl) refl h.0 close_ok

  pub links-tagged :
      (k : ℕ) (s : Text) → is_tagged tags s ≡ true → is_tagged tags (links k s) ≡ true
  links-tagged k [] h = refl
  links-tagged (suc k) (c ∷ s) h = links-tagged k s (tagged_tail tags c s h)
  links-tagged zero (c ∷ s) h = elim (Option-cases (match_link (c ∷ s))) [
    | inl e ↦
        let stays =
          begins_any-step (lacks b'[') tags (c ∷ s) (c ∷ links 0 s) (begins-links_after c s)
            no_bracket in
        ap (is_tagged tags) (links-none c s e)
        ∙ tagged_cons tags c (links 0 s)
            (stands_mono tags c s (links 0 s) stays (tagged_head tags c s h))
            (links-tagged 0 s (tagged_tail tags c s h))
    | inr (l, e) ↦
        let parts = match_link-tagged (c ∷ s) l h e in
        let rest = length (l.label ++ l.target) + 3 in
        ap (is_tagged tags) (links-some c s l e)
        ∙ tagged_append tags (link_html l (sanitize_markdown_href l.target)) (links rest s)
            (link_html-tagged l (sanitize_markdown_href l.target) parts (λ u f.
              sym (ap (is_tagged tags) (sanitize_markdown_href-trim l.target u f))
              ∙ trim_text-tagged tags l.target solid parts.1))
            (links-tagged rest s (tagged_tail tags c s h))
  ]
