-- ===== src/Markdown/Quotes.antt =====
-- The double quotes in a line of a preview (processMarkdownInline), up to the links.
use mathlib.Core.Path.{subst}
use elektrine.Base.{
  ℕ, ◌≡◌, refl, ap, Bool, true, false, not, some, List, [], ◌∷◌, ◌++◌, if◌then◌else◌, ◌==◌, and_of,
  and_left, and_right, inl, inr, Bool-cases, is_space, none-some,
}
use elektrine.Markdown.Text.{
  Text, codes, replace_char, split_at, onto_first, drop_while, drop_last_while, trim_text,
}
use elektrine.Markdown.Tagged.{lacks}
use elektrine.Markdown.Trim.{up_to-found}
use elektrine.Markdown.Inline.{
  escape_html, strong_parts, between, strong, emphasis, inline_code, up_to,
}

-- A text without a double quote.
abbrev pub Unquoted : Text → Type 0
Unquoted s = lacks b'"' s ≡ true

pub Unquoted-later : (c : ℕ) (s : Text) → Unquoted (c ∷ s) → Unquoted s
Unquoted-later c s = and_right (not (c == b'"')) (lacks b'"' s)

pub Unquoted-head : (c : ℕ) (s : Text) → Unquoted (c ∷ s) → Unquoted (c ∷ [])
Unquoted-head c s h =
    and_of (not (c == b'"')) true (and_left (not (c == b'"')) (lacks b'"' s) h) refl

Unquoted-cons : (c : ℕ) (s t : Text) → Unquoted (c ∷ s) → Unquoted t → Unquoted (c ∷ t)
Unquoted-cons c s t h k =
    and_of (not (c == b'"')) (lacks b'"' t) (and_left (not (c == b'"')) (lacks b'"' s) h) k

pub Unquoted-append : (s t : Text) → Unquoted s → Unquoted t → Unquoted (s ++ t)
Unquoted-append [] t h k = k
Unquoted-append (c ∷ s) t h k =
    Unquoted-cons c s (s ++ t) h (Unquoted-append s t (Unquoted-later c s h) k)

replace-Unquoted : (c : ℕ) (by s : Text) → Unquoted by → Unquoted s → Unquoted (replace_char c by s)
replace-Unquoted c by [] h k = refl
replace-Unquoted c by (d ∷ s) h k =
    let rest = replace-Unquoted c by s h (Unquoted-later d s k) in
    elim (Bool-cases (d == c)) [
      | inl e ↦ rw e (Unquoted-append by (replace_char c by s) h rest)
      | inr e ↦ rw e (Unquoted-cons d s (replace_char c by s) k rest)
    ]

quotes_replaced : (by s : Text) → Unquoted by → Unquoted (replace_char b'"' by s)
quotes_replaced by [] h = refl
quotes_replaced by (d ∷ s) h =
    let rest = quotes_replaced by s h in
    elim (Bool-cases (d == b'"')) [
      | inl e ↦ rw e (Unquoted-append by (replace_char b'"' by s) h rest)
      | inr e ↦
          rw e (and_of (not (d == b'"')) (lacks b'"' (replace_char b'"' by s)) (ap not e) rest)
    ]

pub escape_html-Unquoted : (s : Text) → Unquoted (escape_html s)
escape_html-Unquoted s =
    replace-Unquoted b'\'' (codes "&#39;")
      (replace_char b'"' (codes "&quot;") (
        replace_char b'>' (codes "&gt;")
          (replace_char b'<' (codes "&lt;") (replace_char b'&' (codes "&amp;") s))))
      refl
      (quotes_replaced (codes "&quot;")
        (replace_char b'>' (codes "&gt;")
          (replace_char b'<' (codes "&lt;") (replace_char b'&' (codes "&amp;") s)))
        refl)

abbrev AllUnquoted : List Text → Type 0
AllUnquoted [] = Unit {0}
AllUnquoted (s ∷ ss) = Unquoted s × AllUnquoted ss

onto_first-AllUnquoted :
    (c : ℕ) (s : Text) (ss : List Text)
    → Unquoted (c ∷ s)
    → AllUnquoted ss
    → AllUnquoted (onto_first c ss)
onto_first-AllUnquoted c s [] h k = (Unquoted-head c s h, tt)
onto_first-AllUnquoted c s (t ∷ ts) h (k, ks) = (Unquoted-cons c s t h k, ks)

split_at-AllUnquoted : (d : ℕ) (s : Text) → Unquoted s → AllUnquoted (split_at d s)
split_at-AllUnquoted d [] h = (refl, tt)
split_at-AllUnquoted d (c ∷ s) h =
    let rest = split_at-AllUnquoted d s (Unquoted-later c s h) in
    elim (Bool-cases (c == d)) [
      | inl e ↦ rw e (refl, rest)
      | inr e ↦ rw e (onto_first-AllUnquoted c s (split_at d s) h rest)
    ]

four-Unquoted :
    (a l b r : Text)
    → Unquoted a
    → Unquoted l
    → Unquoted b
    → Unquoted r
    → Unquoted (a ++ l ++ b ++ r)
four-Unquoted a l b r ha hl hb hr =
    Unquoted-append (a ++ l ++ b) r (Unquoted-append (a ++ l) b (Unquoted-append a l ha hl) hb) hr

pub three-Unquoted : (a l b : Text) → Unquoted a → Unquoted l → Unquoted b → Unquoted (a ++ l ++ b)
three-Unquoted a l b ha hl hb = Unquoted-append (a ++ l) b (Unquoted-append a l ha hl) hb

module _ (d : ℕ) (l r : Text) (plain : Unquoted (d ∷ [])) (left : Unquoted l)
    (right : Unquoted r) where
  between-Unquoted : (ss : List Text) → AllUnquoted ss → Unquoted (between d l r ss)
  between-Unquoted [] h = refl
  between-Unquoted (a ∷ []) (h, hs) = h
  between-Unquoted (a ∷ [] ∷ s) (h, hs) =
      three-Unquoted a (d ∷ []) (between d l r ([] ∷ s)) h plain (between-Unquoted ([] ∷ s) hs)
  between-Unquoted (a ∷ (c ∷ b) ∷ []) (h, (k, hs)) = three-Unquoted a (d ∷ []) (c ∷ b) h plain k
  between-Unquoted (a ∷ (c ∷ b) ∷ e ∷ s) (h, (k, hs)) =
      Unquoted-append (a ++ l ++ (c ∷ b) ++ r) (between d l r (e ∷ s))
        (four-Unquoted a l (c ∷ b) r h left k right) (between-Unquoted (e ∷ s) hs)

strong_parts-Unquoted : (ss : List Text) → AllUnquoted ss → Unquoted (strong_parts ss)
strong_parts-Unquoted [] h = refl
strong_parts-Unquoted (a ∷ []) (h, hs) = h
strong_parts-Unquoted (a ∷ [] ∷ (c ∷ b) ∷ [] ∷ e ∷ r) (h, (h1, (h2, (h3, hs)))) =
    Unquoted-append (a ++ codes "<strong>" ++ (c ∷ b) ++ codes "</strong>") (strong_parts (e ∷ r))
      (four-Unquoted a (codes "<strong>") (c ∷ b) (codes "</strong>") h refl h2 refl)
      (strong_parts-Unquoted (e ∷ r) hs)
strong_parts-Unquoted (a ∷ b ∷ r) (h, hs) =
    three-Unquoted a (codes "*") (strong_parts (b ∷ r)) h refl (strong_parts-Unquoted (b ∷ r) hs)

-- A line before its links.
pub inline-Unquoted : (s : Text) → Unquoted (inline_code (emphasis (strong (escape_html s))))
inline-Unquoted s =
    let strong_ok =
      strong_parts-Unquoted (split_at b'*' (escape_html s))
        (split_at-AllUnquoted b'*' (escape_html s) (escape_html-Unquoted s)) in
    let emphasis_ok =
      between-Unquoted b'*' (codes "<em>") (codes "</em>") refl refl refl
        (split_at b'*' (strong (escape_html s)))
        (split_at-AllUnquoted b'*' (strong (escape_html s)) strong_ok) in
    between-Unquoted b'`' (codes "<code>") (codes "</code>") refl refl refl
      (split_at b'`' (emphasis (strong (escape_html s))))
      (split_at-AllUnquoted b'`' (emphasis (strong (escape_html s))) emphasis_ok)

drop_while-Unquoted : (f : ℕ → Bool) (s : Text) → Unquoted s → Unquoted (drop_while f s)
drop_while-Unquoted f [] h = refl
drop_while-Unquoted f (c ∷ s) h = elim (Bool-cases (f c)) [
  | inl e ↦ rw e (drop_while-Unquoted f s (Unquoted-later c s h))
  | inr e ↦ rw e h
]

onto_last-Unquoted :
    (b : Bool) (c : ℕ) (s r : Text)
    → Unquoted (c ∷ s)
    → Unquoted r
    → Unquoted (elim r [ [] ↦ if b then [] else c ∷ [] | d ∷ q ↦ c ∷ d ∷ q ])
onto_last-Unquoted true c s [] h k = refl
onto_last-Unquoted false c s [] h k = Unquoted-head c s h
onto_last-Unquoted b c s (d ∷ q) h k = Unquoted-cons c s (d ∷ q) h k

drop_last_while-Unquoted : (f : ℕ → Bool) (s : Text) → Unquoted s → Unquoted (drop_last_while f s)
drop_last_while-Unquoted f [] h = refl
drop_last_while-Unquoted f (c ∷ s) h =
    onto_last-Unquoted (f c) c s (drop_last_while f s) h
      (drop_last_while-Unquoted f s (Unquoted-later c s h))

pub trim_text-Unquoted : (s : Text) → Unquoted s → Unquoted (trim_text s)
unfolding trim_text
trim_text-Unquoted s h =
    drop_last_while-Unquoted is_space (drop_while is_space s) (drop_while-Unquoted is_space s h)

pub up_to-Unquoted :
    (d : ℕ) (s : Text) (r : Text × Text)
    → Unquoted s
    → up_to d s ≡ some r
    → Unquoted r.0 × Unquoted r.1
up_to-Unquoted d [] r h e = (none-some r e, none-some r e)
up_to-Unquoted d (c ∷ s) r h e = elim (up_to-found d c s r e) [
  | inl (f, same) ↦ subst (λ p. Unquoted p.0 × Unquoted p.1) same (refl, Unquoted-later c s h)
  | inr (f, q, g, same) ↦
      let rest = up_to-Unquoted d s q (Unquoted-later c s h) g in
      subst (λ p. Unquoted p.0 × Unquoted p.1) same (Unquoted-cons c s q.0 h rest.0, rest.1)
]
