-- ===== src/Markdown/Href.antt =====
-- markdown_helpers.js: which targets of links are kept.
use elektrine.Base.{
  ℕ, Bool, true, false, not, ◌&&◌, ◌||◌, Option, none, some, [], ◌∷◌, if◌then◌else◌, leb, ◌==◌,
  is_space, keep_if, map,
}
use elektrine.Markdown.Text.{Text, codes, begins, is_empty, is_digit, is_letter, lower, trim_text}

-- `[\u0000-\u001F\u007F\s]`
abbrev pub is_dropped : ℕ → Bool
is_dropped c = leb c 31 || c == 127 || is_space c

abbrev pub is_scheme_char : ℕ → Bool
is_scheme_char c = is_letter c || is_digit c || c == b'+' || c == b'.' || c == b'-'

-- The characters up to a colon, if all of them may stand in a scheme.
abbrev pub up_to_colon : Text → Option Text
up_to_colon [] = none
up_to_colon (c ∷ s) =
    if c == b':'
    then some []
    else if is_scheme_char c
    then elim (up_to_colon s) [ none ↦ none | some r ↦ some (c ∷ r) ]
    else none

-- `/^([a-zA-Z][a-zA-Z\d+.-]*):/`
abbrev pub scheme_of : Text → Option Text
scheme_of [] = none
scheme_of (c ∷ s) = if is_letter c then up_to_colon (c ∷ s) else none

abbrev pub same_text : Text → Text → Bool
same_text [] [] = true
same_text (c ∷ s) (d ∷ t) = c == d && same_text s t
same_text _ _ = false

abbrev pub is_safe_scheme : Text → Bool
is_safe_scheme scheme =
    same_text scheme (codes "http")
    || same_text scheme (codes "https")
    || same_text scheme (codes "mailto")

abbrev pub by_scheme : Text → Option Text → Option Text
by_scheme trimmed none = none
by_scheme trimmed (some scheme) = if is_safe_scheme (map lower scheme) then some trimmed else none

-- Of a string.
unfoldable pub sanitize_markdown_href : Text → Option Text
unfolding trim_text is_space
sanitize_markdown_href href =
    let trimmed = trim_text href in
    if is_empty trimmed
    then none
    else if begins (codes "#") trimmed
    then some trimmed
    else if begins (codes "/") trimmed
    then if begins (codes "//") trimmed then none else some trimmed
    else by_scheme trimmed (scheme_of (keep_if (λ c. not (is_dropped c)) trimmed))
