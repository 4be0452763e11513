-- ===== src/Markdown/Schemes.antt =====
-- The schemes of the links that are kept (sanitizeMarkdownHref).
use elektrine.Base.{
  same_some, none-some, if-some, ℕ, ◌≡◌, refl, sym, ap, ◌∙◌, Bool, true, false, not, ◌||◌, Option,
  none, some, [], ◌∷◌, if◌then◌else◌, leb, ◌==◌, is_space, keep_if, map, arith, inl, inr,
  Bool-cases, Option-cases,
}
use elektrine.Markdown.Text.{Text, codes, begins, is_empty, is_letter, drop_while, trim_text, lower}
use elektrine.Markdown.Href.{
  is_dropped, is_scheme_char, up_to_colon, scheme_of, is_safe_scheme, by_scheme,
  sanitize_markdown_href,
}

-- How a browser reads a scheme: without the controls and spaces at the start, and without tabs and
-- newlines anywhere. (What it strips at the end stands after the colon.)
abbrev pub is_tab_or_newline : ℕ → Bool
is_tab_or_newline c = c == 9 || c == 10 || c == 13

abbrev pub browser_scheme : Text → Option Text
browser_scheme u =
    scheme_of (keep_if (λ c. not (is_tab_or_newline c)) (drop_while (λ c. leb c 32) u))

abbrev kept : ℕ → Bool
kept c = not (is_dropped c)

scheme_char-kept : (c : ℕ) → is_scheme_char c ≡ true → kept c ≡ true
unfolding is_space
scheme_char-kept c h = ground arith

colon-kept : (c : ℕ) → (c == b':') ≡ true → kept c ≡ true
unfolding is_space
colon-kept c h = ground arith

letter-kept : (c : ℕ) → is_letter c ≡ true → kept c ≡ true
letter-kept c h = scheme_char-kept c (rw h refl)

up_to_colon-keep : (x s : Text) → up_to_colon x ≡ some s → up_to_colon (keep_if kept x) ≡ some s
up_to_colon-keep [] s h = cc
up_to_colon-keep (c ∷ x) s h = elim (Bool-cases (c == b':')) [
  | inl e ↦ rw (colon-kept c e) (rw e (rw e at h))
  | inr e ↦ elim (Bool-cases (is_scheme_char c)) [
    | inr f ↦ none-some s (rw (e, f) at h)
    | inl f ↦ elim (Option-cases (up_to_colon x)) [
      | inl g ↦ none-some s (rw g at (rw (e, f) at h))
      | inr (r, g) ↦
          rw (scheme_char-kept c f)
            (rw (e, f) (rw (up_to_colon-keep x r g) (rw g at (rw (e, f) at h))))
    ]
  ]
]

scheme_of_if :
    (b : Bool) (y : Option Text) (s : Text)
    → b ≡ true
    → y ≡ some s
    → (if b then y else none) ≡ some s
scheme_of_if b y s e h = rw e h

scheme_of-cons :
    (b : Bool) (c : ℕ) (x s : Text)
    → b ≡ true
    → scheme_of (c ∷ x) ≡ some s
    → scheme_of (if b then c ∷ x else x) ≡ some s
scheme_of-cons b c x s e h = rw e h

up_to_colon-cons :
    (b : Bool) (c : ℕ) (x s : Text)
    → b ≡ true
    → up_to_colon (if b then c ∷ x else x) ≡ some s
    → up_to_colon (c ∷ x) ≡ some s
up_to_colon-cons b c x s e h = rw e at h

scheme_of-keep : (x s : Text) → scheme_of x ≡ some s → scheme_of (keep_if kept x) ≡ some s
scheme_of-keep [] s h = none-some s h
scheme_of-keep (c ∷ x) s h =
    let (e, rest) = if-some (up_to_colon (c ∷ x)) (is_letter c) s h in
    let r = keep_if kept x in
    let k = letter-kept c e in
    scheme_of-cons (kept c) c r s k (
      scheme_of_if (is_letter c) (up_to_colon (c ∷ r)) s e
        (up_to_colon-cons (kept c) c r s k (up_to_colon-keep (c ∷ x) s rest)))

-- What a browser leaves out, the check leaves out too.
tab-dropped : (c : ℕ) → is_tab_or_newline c ≡ true → is_dropped c ≡ true
tab-dropped c h = ground arith

low-dropped : (c : ℕ) → leb c 32 ≡ true → is_dropped c ≡ true
unfolding is_space
low-dropped c h = ground arith

keep-twice : (x : Text) → keep_if kept (keep_if (λ c. not (is_tab_or_newline c)) x) ≡ keep_if kept x
unfolding is_space
keep-twice [] = refl
keep-twice (c ∷ x) = elim (Bool-cases (is_tab_or_newline c)) [
  | inl e ↦ rw (e, tab-dropped c e) (keep-twice x)
  | inr e ↦ rw e (elim (Bool-cases (is_dropped c)) [
    | inl f ↦ rw f (keep-twice x)
    | inr f ↦ rw f (ap (λ y. c ∷ y) (keep-twice x))
  ])
]

keep-drop_while : (x : Text) → keep_if kept (drop_while (λ c. leb c 32) x) ≡ keep_if kept x
keep-drop_while [] = refl
keep-drop_while (c ∷ x) = elim (Bool-cases (leb c 32)) [
  | inl e ↦ rw (e, low-dropped c e) (keep-drop_while x)
  | inr e ↦ rw e refl
]

browser_scheme-keep : (u s : Text) → browser_scheme u ≡ some s → scheme_of (keep_if kept u) ≡ some s
browser_scheme-keep u s h =
    let read = drop_while (λ c. leb c 32) u in
    sym (ap scheme_of (keep-twice read ∙ keep-drop_while u))
    ∙ scheme_of-keep (keep_if (λ c. not (is_tab_or_newline c)) read) s h

-- The scheme that is checked is a safe one.
by_scheme-safe :
    (t u s : Text) (o : Option Text)
    → o ≡ some s
    → by_scheme t o ≡ some u
    → is_safe_scheme (map lower s) ≡ true
by_scheme-safe t u s none e h = none-some s e
by_scheme-safe t u s (some r) e h =
    ap (λ x. is_safe_scheme (map lower x)) (sym (same_some r s e))
    ∙ (if-some (some t) (is_safe_scheme (map lower r)) u h).0

by_scheme-same : (t u : Text) (o : Option Text) → by_scheme t o ≡ some u → t ≡ u
by_scheme-same t u none h = none-some u h
by_scheme-same t u (some r) h =
    same_some t u ((if-some (some t) (is_safe_scheme (map lower r)) u h).1)

read_head :
    (c : ℕ) (x : Text)
    → leb c 32 ≡ false
    → is_tab_or_newline c ≡ false
    → browser_scheme (c ∷ x) ≡ scheme_of (c ∷ keep_if (λ d. not (is_tab_or_newline d)) x)
read_head c x high plain = rw high (rw plain refl)

-- No scheme starts with a character that is no letter.
marker-browser_scheme :
    (c : ℕ) (x s : Text)
    → (b'#' == c || b'/' == c) ≡ true
    → browser_scheme (c ∷ x) ≡ some s
    → is_letter c ≡ true
marker-browser_scheme c x s h r =
    let high : leb c 32 ≡ false = ground arith in
    let plain : is_tab_or_newline c ≡ false = ground arith in
    let read : Text = keep_if (λ d. not (is_tab_or_newline d)) x in
    (if-some (up_to_colon (c ∷ read)) (is_letter c) s (sym (read_head c x high plain) ∙ r)).0

no_marker_letter :
    (c : ℕ) (b : Bool) → (b'#' == c || b'/' == c) ≡ true → is_letter c ≡ true → b ≡ true
no_marker_letter c b h e = ground arith

marker_head :
    (c : ℕ) (x : Text)
    → (begins (codes "#") (c ∷ x) || begins (codes "/") (c ∷ x)) ≡ true
    → (b'#' == c || b'/' == c) ≡ true
marker_head c x h = ground arith

-- What starts with a hash or a slash has no scheme.
marker_safe :
    (x s : Text) (b : Bool)
    → (begins (codes "#") x || begins (codes "/") x) ≡ true
    → browser_scheme x ≡ some s
    → b ≡ true
marker_safe [] s b h r = none-some s r
marker_safe (c ∷ x) s b h r =
    let head = marker_head c x h in no_marker_letter c b head (marker-browser_scheme c x s head r)

abbrev checked : Text → Option Text
checked t =
    if is_empty t
    then none
    else if begins (codes "#") t
    then some t
    else if begins (codes "/") t
    then if begins (codes "//") t then none else some t
    else by_scheme t (scheme_of (keep_if kept t))

marked : (t u : Text) → (if begins (codes "//") t then none else some t) ≡ some u → t ≡ u
marked t u h = elim (Bool-cases (begins (codes "//") t)) [
  | inl e ↦ none-some u (rw e at h)
  | inr e ↦ same_some t u (rw e at h)
]

checked-same : (t u : Text) → checked t ≡ some u → t ≡ u
checked-same t u h = elim (Bool-cases (is_empty t)) [
  | inl e ↦ none-some u (rw e at h)
  | inr e ↦ elim (Bool-cases (begins (codes "#") t)) [
    | inl f ↦ same_some t u (rw (e, f) at h)
    | inr f ↦ elim (Bool-cases (begins (codes "/") t)) [
      | inl g ↦ marked t u (rw (e, f, g) at h)
      | inr g ↦ by_scheme-same t u (scheme_of (keep_if kept t)) (rw (e, f, g) at h)
    ]
  ]
]

checked_scheme :
    (t u s : Text)
    → checked t ≡ some u
    → browser_scheme t ≡ some s
    → is_safe_scheme (map lower s) ≡ true
checked_scheme t u s h r = elim (Bool-cases (is_empty t)) [
  | inl e ↦ none-some u (rw e at h)
  | inr e ↦ elim (Bool-cases (begins (codes "#") t)) [
    | inl f ↦ marker_safe t s (is_safe_scheme (map lower s)) (rw f refl) r
    | inr f ↦ elim (Bool-cases (begins (codes "/") t)) [
      | inl g ↦ marker_safe t s (is_safe_scheme (map lower s)) (rw (f, g) refl) r
      | inr g ↦
          by_scheme-safe t u s (scheme_of (keep_if kept t)) (browser_scheme-keep t s r)
            (rw (e, f, g) at h)
    ]
  ]
]

pub sanitize_markdown_href-trim :
    (href u : Text) → sanitize_markdown_href href ≡ some u → trim_text href ≡ u
unfolding sanitize_markdown_href
sanitize_markdown_href-trim href u h = checked-same (trim_text href) u h

-- If `sanitizeMarkdownHref` keeps a target, the text that stands in the link has, as a browser
-- reads its scheme, either none or one of http, https and mailto.
pub sanitize_markdown_href-Safe :
    (href u s : Text)
    → sanitize_markdown_href href ≡ some u
    → browser_scheme u ≡ some s
    → is_safe_scheme (map lower s) ≡ true
unfolding sanitize_markdown_href
sanitize_markdown_href-Safe href u s h r =
    let t = trim_text href in checked_scheme t u s h (ap browser_scheme (checked-same t u h) ∙ r)
