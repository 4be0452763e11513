-- ===== src/Capture/Filename.antt =====
-- background.js: the name under which a file is saved (downloadFilename and what it calls). A
-- string's characters stand for its UTF-16 units.
pub mod Named
use Prim.Native.Char.{Char, code}
use elektrine.Base.{
  ℕ, String, Bool, true, false, not, ◌&&◌, ◌||◌, Option, none, some, List, [], ◌∷◌, leb, ◌==◌,
  ◌===◌, if◌then◌else◌, truthy, or_text, text_of, trim, concat, slice_to, text_length, all_chars,
  keep_if,
}
use elektrine.Api.Address.{is_digit, is_letter, lower}
use elektrine.Capture.Types.{Platform, Response}
use elektrine.Nerve.Types.{Url}

-- `split` at every character that passes.
abbrev onto_first : Char → List String → List String
onto_first c [] = String.◌∷◌ c "" ∷ []
onto_first c (t ∷ ts) = String.◌∷◌ c t ∷ ts

abbrev pub split_where : (ℕ → Bool) → String → List String
split_where p String.[] = "" ∷ []
split_where p (String.◌∷◌ c s) =
    let rest = split_where p s in if p (code c) then "" ∷ rest else onto_first c rest

-- `[0]` and `pop()`
abbrev pub first_of : List String → String
first_of [] = ""
first_of (t ∷ ts) = t

abbrev last_of : List String → String
last_of [] = ""
last_of (t ∷ []) = t
last_of (t ∷ u ∷ ts) = last_of (u ∷ ts)

abbrev keep_chars : (ℕ → Bool) → String → String
keep_chars p String.[] = ""
keep_chars p (String.◌∷◌ c s) =
    let rest = keep_chars p s in if p (code c) then String.◌∷◌ c rest else rest

-- `[\\/]` and `[\u0000-\u001f\u007f]`
abbrev is_separator : ℕ → Bool
is_separator c = c == b'/' || c == b'\\'

abbrev is_control : ℕ → Bool
is_control c = leb c 0x1f || c == 0x7f

abbrev max_filename : ℕ
max_filename = 120

unfoldable pub sanitize_download_filename : String → String
unfolding trim
sanitize_download_filename value =
    let name = last_of (split_where is_separator (or_text value "kairo-file")) in
    or_text (slice_to max_filename (trim (keep_chars (λ c. not (is_control c)) name))) "kairo-file"

-- `/\.[a-z0-9]{1,8}$/i`
abbrev is_alphanumeric : ℕ → Bool
is_alphanumeric c = is_letter c || is_digit c

abbrev is_extension : String → Bool
is_extension s = truthy s && leb (text_length s) 8 && all_chars is_alphanumeric s

abbrev pub has_extension : String → Bool
has_extension String.[] = false
has_extension (String.◌∷◌ c s) = code c == b'.' && is_extension s || has_extension s

abbrev extension_for_content_type : String → String
extension_for_content_type kind =
    if kind === "image/jpeg" || kind === "image/jpg"
    then ".jpg"
    else if kind === "image/png"
    then ".png"
    else if kind === "image/gif"
    then ".gif"
    else if kind === "image/webp"
    then ".webp"
    else if kind === "image/heic"
    then ".heic"
    else if kind === "image/heif"
    then ".heif"
    else if kind === "image/avif"
    then ".avif"
    else if kind === "application/pdf"
    then ".pdf"
    else if kind === "application/json"
    then ".json"
    else if kind === "application/markdown" || kind === "text/markdown"
    then ".md"
    else if kind === "text/plain"
    then ".txt"
    else ".bin"

abbrev with_extension : String → String → String
with_extension filename content_type =
    if has_extension filename
    then filename
    else concat filename (extension_for_content_type content_type)

-- `match` of a pattern without anchor: at the first place where `f` finds something.
abbrev pub search_for : (String → Option String) → String → Option String
search_for f String.[] = f ""
search_for f (String.◌∷◌ c s) = elim (f (String.◌∷◌ c s)) [
  | none ↦ search_for f s
  | some t ↦ some t
]

-- What follows a marker in small letters, in whatever case it stands.
abbrev pub after_marker : String → String → Option String
after_marker String.[] s = some s
after_marker (String.◌∷◌ m t) String.[] = none
after_marker (String.◌∷◌ m t) (String.◌∷◌ c s) = elim (lower (code c) == code m) [
  | true ↦ after_marker t s
  | false ↦ none
]

-- `([^...]+)`
abbrev longest_run : (ℕ → Bool) → String → Option String
longest_run stop s =
    let run = first_of (split_where stop s) in if truthy run then some run else none

abbrev drop_quote : String → String
drop_quote String.[] = ""
drop_quote (String.◌∷◌ c s) = if code c == b'"' then s else String.◌∷◌ c s

abbrev drop_last_quote : String → String
drop_last_quote String.[] = ""
drop_last_quote (String.◌∷◌ c s) =
    let rest = drop_last_quote s in
    if code c == b'"' && not (truthy s) then "" else String.◌∷◌ c rest

-- `/filename\*=UTF-8''([^;]+)/i`
abbrev encoded_at : String → Option String
encoded_at s = elim (after_marker "filename*=utf-8''" s) [
  | none ↦ none
  | some t ↦ longest_run (λ c. c == b';') t
]

-- `/filename="?([^";]+)"?/i`
abbrev plain_at : String → Option String
plain_at s = elim (after_marker "filename=" s) [
  | none ↦ none
  | some t ↦ longest_run (λ c. c == b'"' || c == b';') (drop_quote t)
]

abbrev or_itself : String → Option String → String
or_itself s none = s
or_itself s (some t) = t

module _ (p : Platform) where
  unfoldable pub filename_from_content_disposition : String → String
  filename_from_content_disposition disposition = elim (search_for encoded_at disposition) [
    | none ↦ text_of (search_for plain_at disposition)
    | some t ↦ let name = drop_last_quote (drop_quote t) in or_itself name (p.decode_uri name)
  ]

  abbrev filename_in : Option Url → String
  filename_in none = ""
  filename_in (some u) =
      text_of (p.decode_uri (last_of (keep_if truthy (split_where (λ c. c == b'/') u.pathname))))

  unfoldable filename_from_url : String → String
  filename_from_url value = filename_in (p.worker.parse_url value)

  -- The name before it is made safe.
  abbrev given_name : String → Response → String
  given_name url response =
      or_text (filename_from_content_disposition (text_of response.content_disposition))
        (or_text (filename_from_url url) "kairo-file")

  unfoldable pub download_filename : String → Response → (content_type : String) → String
  unfolding sanitize_download_filename filename_from_content_disposition filename_from_url
  download_filename url response content_type =
      with_extension (sanitize_download_filename (given_name url response)) content_type
