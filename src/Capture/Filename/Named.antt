-- ===== src/Capture/Filename/Named.antt =====
-- The name of a saved file.
use elektrine.Base.{
  ◌≡◌, refl, ap, ◌∙◌, ◌≤◌, arith, String, Bool, true, false, not, ◌&&◌, ◌||◌, List, [], ◌∷◌, ℕ,
  text_length, all_chars, truthy, or_text, All, concat, inl, inr, Bool-cases, if◌then◌else◌, ◌===◌,
  ◌==◌, all_chars-trim, all_chars-slice_to, all_chars-concat, length-slice_to_le, length-concat,
  and_of, and_left, and_right, slice_to, trim,
}
use Prim.Native.String.append
use Prim.Native.Char.{Char, code}
use elektrine.Capture.Types.{Platform, Response}
use elektrine.Capture.Filename.{
  is_separator, is_control, split_where, onto_first, last_of, keep_chars,
  sanitize_download_filename, has_extension, is_extension, extension_for_content_type,
  with_extension, given_name, download_filename, max_filename,
}

abbrev pub is_plain : ℕ → Bool
is_plain c = not (is_separator c) && not (is_control c)

-- A name that is not empty, with `n` characters at most, all of them plain.
pub record IsName (n : ℕ) (s : String) : Type 0 where
  pub present : truthy s ≡ true
  pub short : text_length s ≤ n
  pub harmless : all_chars is_plain s ≡ true

module _ (p : ℕ → Bool) where
  abbrev Clean : String → Type 0
  Clean s = all_chars (λ c. not (p c)) s ≡ true

  onto_first-Clean :
      (c : Char) (ts : List String)
      → not (p (code c)) ≡ true
      → All Clean ts
      → All Clean (onto_first c ts)
  onto_first-Clean c [] h k = (and_of (not (p (code c))) true h refl, tt)
  onto_first-Clean c (t ∷ ts) h (k, ks) =
      (and_of (not (p (code c))) (all_chars (λ d. not (p d)) t) h k, ks)

  split_where-Clean : (s : String) → All Clean (split_where p s)
  split_where-Clean String.[] = (refl, tt)
  split_where-Clean (String.◌∷◌ c s) = elim (Bool-cases (p (code c))) [
    | inl e ↦ rw e (refl, split_where-Clean s)
    | inr e ↦ rw e (onto_first-Clean c (split_where p s) (ap not e) (split_where-Clean s))
  ]

  last_of-Clean : (ts : List String) → All Clean ts → Clean (last_of ts)
  last_of-Clean [] h = refl
  last_of-Clean (t ∷ []) (h, hs) = h
  last_of-Clean (t ∷ u ∷ ts) (h, hs) = last_of-Clean (u ∷ ts) hs

keep_chars-plain :
    (s : String)
    → all_chars (λ c. not (is_separator c)) s ≡ true
    → all_chars is_plain (keep_chars (λ c. not (is_control c)) s) ≡ true
keep_chars-plain String.[] h = refl
keep_chars-plain (String.◌∷◌ c s) h =
    let rest =
      keep_chars-plain s
        (and_right (not (is_separator (code c))) (all_chars (λ d. not (is_separator d)) s) h) in
    elim (Bool-cases (not (is_control (code c)))) [
      | inr e ↦ rw e rest
      | inl e ↦ rw e (
          and_of (is_plain (code c)) (all_chars is_plain (keep_chars (λ d. not (is_control d)) s))
            (and_of (not (is_separator (code c))) (not (is_control (code c)))
              (and_left (not (is_separator (code c))) (all_chars (λ d. not (is_separator d)) s) h)
              e)
            rest)
    ]

or_text-IsName :
    (n : ℕ) (s t : String)
    → text_length s ≤ n
    → all_chars is_plain s ≡ true
    → IsName n t
    → IsName n (or_text s t)
or_text-IsName n String.[] t h k d = d
or_text-IsName n (String.◌∷◌ c s) t h k d = record { present = refl; short = h; harmless = k }

sanitize_download_filename-IsName :
    (value : String) → IsName max_filename (sanitize_download_filename value)
unfolding sanitize_download_filename
sanitize_download_filename-IsName value =
    let parts = split_where is_separator (or_text value "kairo-file") in
    let kept = keep_chars (λ c. not (is_control c)) (last_of parts) in
    or_text-IsName max_filename (slice_to max_filename (trim kept)) "kairo-file"
      (length-slice_to_le max_filename (trim kept))
      (all_chars-slice_to is_plain max_filename (trim kept) (
        all_chars-trim is_plain kept (
          keep_chars-plain (last_of parts) (
            last_of-Clean is_separator parts
              (split_where-Clean is_separator (or_text value "kairo-file"))))))
      (record { present = refl; short = omega arith; harmless = refl })

or_of_right : (a b : Bool) → b ≡ true → (a || b) ≡ true
or_of_right a b h = ground (arith, h)

has_extension-concat : (s t : String) → has_extension t ≡ true → has_extension (concat s t) ≡ true
has_extension-concat String.[] t h = ap has_extension (append.nil t) ∙ h
has_extension-concat (String.◌∷◌ c s) t h =
    ap has_extension (append.cons c s t)
    ∙ or_of_right (code c == b'.' && is_extension (concat s t)) (has_extension (concat s t))
        (has_extension-concat s t h)

truthy-concat : (s t : String) → truthy s ≡ true → truthy (concat s t) ≡ true
truthy-concat String.[] t h = absurd (ground (arith, h))
truthy-concat (String.◌∷◌ c s) t h = ap truthy (append.cons c s t)

-- The extensions that a content type gives.
record IsSuffix (s : String) : Type 0 where
  found : has_extension s ≡ true
  short : text_length s ≤ 5
  harmless : all_chars is_plain s ≡ true

choose : (b : Bool) {s t : String} → IsSuffix s → IsSuffix t → IsSuffix (if b then s else t)
choose true h k = h
choose false h k = k

abbrev suffix :
    (s : String)
    → has_extension s ≡ true
    → text_length s ≤ 5
    → all_chars is_plain s ≡ true
    → IsSuffix s
suffix s h k l = record { found = h; short = k; harmless = l }

extension-IsSuffix : (kind : String) → IsSuffix (extension_for_content_type kind)
extension-IsSuffix kind =
    choose (kind === "image/jpeg" || kind === "image/jpg") (suffix ".jpg" refl (omega arith) refl) (
      choose (kind === "image/png") (suffix ".png" refl (omega arith) refl) (
        choose (kind === "image/gif") (suffix ".gif" refl (omega arith) refl) (
          choose (kind === "image/webp") (suffix ".webp" refl (omega arith) refl) (
            choose (kind === "image/heic") (suffix ".heic" refl (omega arith) refl) (
              choose (kind === "image/heif") (suffix ".heif" refl (omega arith) refl) (
                choose (kind === "image/avif") (suffix ".avif" refl (omega arith) refl) (
                  choose (kind === "application/pdf") (suffix ".pdf" refl (omega arith) refl) (
                    choose (kind === "application/json") (suffix ".json" refl (omega arith) refl) (
                      choose (kind === "application/markdown" || kind === "text/markdown")
                        (suffix ".md" refl (omega arith) refl)
                        (choose (kind === "text/plain") (suffix ".txt" refl (omega arith) refl)
                          (suffix ".bin" refl (omega arith) refl)))))))))))

-- The longest extension that is added has five characters.
abbrev pub max_name : ℕ
max_name = 125

with_extension-IsName :
    (s kind : String)
    → IsName max_filename s
    → IsName max_name (with_extension s kind) × (has_extension (with_extension s kind) ≡ true)
with_extension-IsName s kind h = elim (Bool-cases (has_extension s)) [
  | inl e ↦
      rw e
        (record { present = h.present; short = omega (arith, h.short); harmless = h.harmless }, e)
  | inr e ↦
      let end = extension_for_content_type kind in
      let suffixed = extension-IsSuffix kind in
      rw e (
        record {
          present = truthy-concat s end h.present;
          short = omega (arith, length-concat s end, h.short, suffixed.short);
          harmless = all_chars-concat is_plain s end h.harmless suffixed.harmless;
        },
        has_extension-concat s end suffixed.found,
      )
]

-- Whatever the server says and the URL holds, the name has an extension and 125 characters at
-- most, none of them a slash, a backslash or a control character.
pub download_filename-IsName :
    (p : Platform) (url : String) (response : Response) (content_type : String)
    → IsName max_name (download_filename p url response content_type)
      × (has_extension (download_filename p url response content_type) ≡ true)
unfolding download_filename
download_filename-IsName p url response content_type =
    with_extension-IsName (sanitize_download_filename (given_name p url response)) content_type
      (sanitize_download_filename-IsName (given_name p url response))
