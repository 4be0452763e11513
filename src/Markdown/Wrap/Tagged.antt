-- ===== src/Markdown/Wrap/Tagged.antt =====
-- Wrapping the items of a list, and the tags of a text.
use mathlib.Core.Path.{subst}
use elektrine.Base.{
  ℕ, zero, suc, ◌≡◌, refl, sym, ap, ◌∙◌, Bool, true, false, not, ◌&&◌, ◌||◌, Option, none, some, [],
  ◌∷◌, ◌++◌, if◌then◌else◌, ◌==◌, all_true, and_of, and_left, and_right, ==→eq, inl, inr,
  Bool-cases, Option-cases, arith, ◌⊎◌, none-some,
}
use elektrine.Markdown.Text.{Text, codes, begins, drop_chars, join_lines}
use elektrine.Markdown.Lines.{markdown_lines}
use elektrine.Markdown.Tagged.{
  is_tagged, stands_mono, begins_any-step, tagged_head, tagged_tail, tagged_cons, tagged_append,
}
use elektrine.Markdown.Safety.{preview_tags, markdown_lines-AreTagged, join_lines-IsClean}
use elektrine.Markdown.Inline.{process_markdown_inline}
use elektrine.Markdown.Anchors.{IsLinked, process_markdown_inline-IsLinked}
use elektrine.Markdown.Wrap.{
  list_start, list_end, ends_line, last_close, skip, item_length, wrap_items, markdown_to_html,
}

-- What an item ends with: a tag, or the line.
abbrev is_end : ℕ → Bool
is_end c = c == b'>' || c == 10

-- Only the last character of a tag ends it, and only the first begins one.
abbrev is_whole : Text → Bool
is_whole [] = true
is_whole (c ∷ []) = true
is_whole (c ∷ d ∷ t) = not (is_end c) && not (d == b'<') && is_whole (d ∷ t)

-- The character after `n` others is an end.
abbrev ends_after : ℕ → Text → Bool
ends_after n [] = false
ends_after zero (c ∷ s) = is_end c
ends_after (suc n) (c ∷ s) = ends_after n s

begins-ends :
    (n : ℕ) (t s : Text) → begins t s ≡ true → ends_after n t ≡ true → ends_after n s ≡ true
begins-ends n [] s h k = absurd (ground (arith, k))
begins-ends n (c ∷ t) [] h k = absurd (ground (arith, h))
begins-ends zero (c ∷ t) (d ∷ s) h k =
    ap is_end (sym (==→eq c d (and_left (c == d) (begins t s) h))) ∙ k
begins-ends (suc n) (c ∷ t) (d ∷ s) h k = begins-ends n t s (and_right (c == d) (begins t s) h) k

ends_after-drop :
    (n j : ℕ) (s : Text) → ends_after j (drop_chars n s) ≡ true → ends_after (skip n j) s ≡ true
ends_after-drop zero j s h = h
ends_after-drop (suc n) j [] h = h
ends_after-drop (suc n) j (c ∷ s) h = ends_after-drop n j s h

-- A length whose last character is an end.
abbrev IsEnded : Option ℕ → Text → Type 0
IsEnded none s = Unit
IsEnded (some zero) s = false ≡ true
IsEnded (some (suc n)) s = ends_after n s ≡ true

close-IsEnded :
    (line_end : Bool) (rest : Option ℕ) (closes : Bool) (c : ℕ) (s : Text)
    → IsEnded rest s
    → (closes ≡ true → ends_after 4 (c ∷ s) ≡ true)
    → IsEnded
        (if line_end
          then none
          else elim rest [ some k ↦ some (suc k) | none ↦ if closes then some 5 else none ])
        (c ∷ s)
close-IsEnded true rest closes c s h k = tt
close-IsEnded false (some zero) closes c s h k = absurd (ground (arith, h))
close-IsEnded false (some (suc n)) closes c s h k = h
close-IsEnded false none true c s h k = k refl
close-IsEnded false none false c s h k = tt

last_close-IsEnded : (s : Text) → IsEnded (last_close s) s
last_close-IsEnded [] = tt
last_close-IsEnded (c ∷ s) =
    close-IsEnded (ends_line c) (last_close s) (begins (codes "</li>") (c ∷ s)) c s
      (last_close-IsEnded s) (λ h. begins-ends 4 (codes "</li>") (c ∷ s) h refl)

skip_zero : (n : ℕ) → skip n 0 ≡ n
skip_zero zero = refl
skip_zero (suc n) = ap suc (skip_zero n)

newline-IsEnded :
    (k : ℕ) (s : Text) → (begins (10 ∷ []) (drop_chars k s) ≡ true) → IsEnded (some (suc k)) s
newline-IsEnded k s h =
    ap (λ n. ends_after n s) (sym (skip_zero k))
    ∙ ends_after-drop k 0 s (begins-ends 0 (10 ∷ []) (drop_chars k s) h refl)

longer-IsEnded :
    (b : Bool) (k : ℕ) (s : Text)
    → (b ≡ true → IsEnded (some (suc k)) s)
    → IsEnded (some k) s
    → IsEnded (if b then some (suc k) else some k) s
longer-IsEnded true k s h i = h refl
longer-IsEnded false k s h i = i

item-IsEnded :
    (starts : Bool) (rest : Option ℕ) (s : Text)
    → IsEnded rest (drop_chars 4 s)
    → IsEnded
        (if starts
          then elim rest [
            | none ↦ none
            | some k ↦
                if begins (10 ∷ []) (drop_chars (skip 4 k) s)
                then some (skip 4 (suc k))
                else some (skip 4 k)
          ]
          else none)
        s
item-IsEnded false rest s h = tt
item-IsEnded true none s h = tt
item-IsEnded true (some zero) s h = absurd (ground (arith, h))
item-IsEnded true (some (suc n)) s h =
    longer-IsEnded (begins (10 ∷ []) (drop_chars (skip 4 (suc n)) s)) (skip 4 (suc n)) s
      (newline-IsEnded (skip 4 (suc n)) s) (ends_after-drop 4 n s h)

item_length-IsEnded : (s : Text) → IsEnded (item_length s) s
item_length-IsEnded s =
    item-IsEnded (begins (codes "<li>") s) (last_close (drop_chars 4 s)) s
      (last_close-IsEnded (drop_chars 4 s))

item_length-starts : (c : ℕ) (s : Text) (k : ℕ) → item_length (c ∷ s) ≡ some k → (b'<' == c) ≡ true
item_length-starts c s k h = elim (Bool-cases (begins (codes "<li>") (c ∷ s))) [
  | inl e ↦ and_left (b'<' == c) (begins (codes "li>") s) e
  | inr e ↦ none-some k (rw e at h)
]

-- Inside a list, what is still to be copied ends an item; `s` starts with the character before.
abbrev Stands : ℕ → Bool → Text → Type 0
Stands left false s = Unit
Stands left true s = ends_after left s ≡ true

Stands-later :
    (left : ℕ) (inside : Bool) (c : ℕ) (s : Text)
    → Stands (suc left) inside (c ∷ s)
    → Stands left inside s
Stands-later left false c s h = tt
Stands-later left true c s h = h

later_whole : (c d : ℕ) (t : Text) → is_whole (c ∷ d ∷ t) ≡ true → is_whole (d ∷ t) ≡ true
later_whole c d t h = and_right (not (is_end c) && not (d == b'<')) (is_whole (d ∷ t)) h

never : (a b c : Bool) → (not a && not b && c) ≡ true → (a ≡ true) ⊎ (b ≡ true) → false ≡ true
never true b c h e = h
never false true c h e = h
never false false c h (inl e) = e
never false false c h (inr e) = e

same_start : (d e : ℕ) → (d == e) ≡ true → (b'<' == e) ≡ true → (d == b'<') ≡ true
same_start d e h k = ground (arith, h, k)

not_whole {ℓ} :
    {A : Type ℓ} (c d : ℕ) (t : Text)
    → is_whole (c ∷ d ∷ t) ≡ true
    → (is_end c ≡ true) ⊎ ((d == b'<') ≡ true)
    → A
not_whole c d t h e = absurd (ground (arith, never (is_end c) (d == b'<') (is_whole (d ∷ t)) h e))

-- A tag that is whole stays where it is: nothing is put inside it.
begins-wrap :
    (t : Text) (left : ℕ) (inside : Bool) (c : ℕ) (s : Text)
    → is_whole t ≡ true
    → begins t (c ∷ s) ≡ true
    → Stands left inside (c ∷ s)
    → begins t (c ∷ wrap_items left inside s) ≡ true
begins-wrap [] left inside c s w h i = refl
begins-wrap (x ∷ []) left inside c s w h i = and_of (x == c) true (and_left (x == c) true h) refl
begins-wrap (x ∷ d ∷ t) left inside c [] w h i = absurd (ground (arith, and_right (x == c) false h))
begins-wrap (x ∷ d ∷ t) (suc left) inside c (e ∷ s) w h i =
    and_of (x == c) (begins (d ∷ t) (e ∷ wrap_items left inside s))
      (and_left (x == c) (begins (d ∷ t) (e ∷ s)) h)
      (begins-wrap (d ∷ t) left inside e s (later_whole x d t w)
        (and_right (x == c) (begins (d ∷ t) (e ∷ s)) h) (Stands-later left inside c (e ∷ s) i))
begins-wrap (x ∷ d ∷ t) zero true c (e ∷ s) w h i =
    not_whole x d t w
      (inl (ap is_end (==→eq x c (and_left (x == c) (begins (d ∷ t) (e ∷ s)) h)) ∙ i))
begins-wrap (x ∷ d ∷ t) zero false c (e ∷ s) w h i = elim (Option-cases (item_length (e ∷ s))) [
  | inl q ↦ rw q (
      and_of (x == c) (begins (d ∷ t) (e ∷ wrap_items 0 false s))
        (and_left (x == c) (begins (d ∷ t) (e ∷ s)) h)
        (begins-wrap (d ∷ t) 0 false e s (later_whole x d t w)
          (and_right (x == c) (begins (d ∷ t) (e ∷ s)) h) tt))
  | inr (k, q) ↦ not_whole x d t w (
      inr (
        same_start d e
          (and_left (d == e) (begins t s) (and_right (x == c) (begins (d ∷ t) (e ∷ s)) h))
          (item_length-starts e s k q)))
]

preview_tags-Whole : all_true is_whole preview_tags ≡ true
preview_tags-Whole = refl

onto-tagged :
    (left : ℕ) (inside : Bool) (c : ℕ) (s : Text)
    → is_tagged preview_tags (c ∷ s) ≡ true
    → Stands left inside (c ∷ s)
    → is_tagged preview_tags (wrap_items left inside s) ≡ true
    → is_tagged preview_tags (c ∷ wrap_items left inside s) ≡ true
onto-tagged left inside c s h i k =
    tagged_cons preview_tags c (wrap_items left inside s)
      (stands_mono preview_tags c s (wrap_items left inside s)
        (begins_any-step is_whole preview_tags (c ∷ s) (c ∷ wrap_items left inside s)
          (λ t w b. begins-wrap t left inside c s w b i) preview_tags-Whole)
        (tagged_head preview_tags c s h))
      k

if-tagged :
    (b : Bool) (s t : Text)
    → is_tagged preview_tags s ≡ true
    → is_tagged preview_tags t ≡ true
    → is_tagged preview_tags (if b then s else t) ≡ true
if-tagged true s t h k = h
if-tagged false s t h k = k

ended : (k c : ℕ) (s : Text) → item_length (c ∷ s) ≡ some k → IsEnded (some k) (c ∷ s)
ended k c s q = subst (λ r. IsEnded r (c ∷ s)) q (item_length-IsEnded (c ∷ s))

wrap-outside :
    (inside : Bool) (c : ℕ) (s : Text)
    → item_length (c ∷ s) ≡ none
    → wrap_items 0 inside (c ∷ s) ≡ (if inside then list_end else []) ++ c ∷ wrap_items 0 false s
wrap-outside inside c s q = rw (q, wrap_items) refl

wrap-item :
    (left : ℕ) (inside : Bool) (c : ℕ) (s : Text)
    → item_length (c ∷ s) ≡ some (suc left)
    → wrap_items 0 inside (c ∷ s)
      ≡ (if inside then [] else list_start) ++ c ∷ wrap_items left true s
wrap-item left inside c s q = rw (q, wrap_items) refl

wrap_items-tagged :
    (left : ℕ) (inside : Bool) (c : ℕ) (s : Text)
    → Stands left inside (c ∷ s)
    → is_tagged preview_tags s ≡ true
    → is_tagged preview_tags (wrap_items left inside s) ≡ true
wrap_items-tagged left inside c [] i h = if-tagged inside list_end [] refl refl
wrap_items-tagged (suc left) inside c (d ∷ s) i h =
    let later = Stands-later left inside c (d ∷ s) i in
    onto-tagged left inside d s h later
      (wrap_items-tagged left inside d s later (tagged_tail preview_tags d s h))
wrap_items-tagged zero inside c (d ∷ s) i h = elim (Option-cases (item_length (d ∷ s))) [
  | inl q ↦
      ap (is_tagged preview_tags) (wrap-outside inside d s q)
      ∙ (tagged_append preview_tags (if inside then list_end else []) (d ∷ wrap_items 0 false s)
          (if-tagged inside list_end [] refl refl)
          (onto-tagged 0 false d s h tt
            (wrap_items-tagged 0 false d s tt (tagged_tail preview_tags d s h))))
  | inr (zero, q) ↦ absurd (ground (arith, ended 0 d s q))
  | inr (suc k, q) ↦
      ap (is_tagged preview_tags) (wrap-item k inside d s q)
      ∙ (tagged_append preview_tags (if inside then [] else list_start) (d ∷ wrap_items k true s)
          (if-tagged inside [] list_start refl refl)
          (onto-tagged k true d s h (ended (suc k) d s q)
            (wrap_items-tagged k true d s (ended (suc k) d s q) (tagged_tail preview_tags d s h))))
]

-- In the html of a preview, whatever the text, every `<` begins one of the tags that the
-- preview itself makes, or the first part of the tag of a link; and every line that is
-- processed falls into texts without a double quote and links, each link's tag whole, with the
-- fixed attributes, its label and its target without a double quote and the target one that the
-- sanitizer kept.
pub markdown_to_html-IsTagged :
    (s line : Text)
    → (is_tagged preview_tags (markdown_to_html s) ≡ true) × IsLinked (process_markdown_inline line)
markdown_to_html-IsTagged s line =
    let lines_ok = join_lines-IsClean (markdown_lines s) (markdown_lines-AreTagged s) in
    let tagged = wrap_items-tagged 0 false 10 (join_lines (markdown_lines s)) tt lines_ok in
    (tagged, process_markdown_inline-IsLinked line)
