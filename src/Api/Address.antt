-- ===== src/Api/Address.antt =====
-- api.js: the address of the server (normalizeServerUrl).
use Prim.Native.Char.{code}
use elektrine.Base.{
  ◌≡◌, refl, ℕ, String, Bool, true, false, not, ◌&&◌, ◌||◌, Option, none, some, List, [], ◌∷◌,
  if◌then◌else◌, ◌===◌, ◌==◌, leb, truthy, trim, concat, ◌+◌,
}
use elektrine.Base.Effects.{Result, ok, err}
use elektrine.Api.Types.{Env, Url}

abbrev codes : String → List ℕ
codes String.[] = []
codes (String.◌∷◌ c s) = code c ∷ codes s

abbrev begins : List ℕ → List ℕ → Bool
begins [] s = true
begins (c ∷ p) [] = false
begins (c ∷ p) (d ∷ s) = c == d && begins p s

abbrev pub is_loopback_hostname : String → Bool
is_loopback_hostname hostname =
    hostname === "localhost" || hostname === "127.0.0.1" || hostname === "[::1]"

abbrev pub is_digit : ℕ → Bool
is_digit c = leb b'0' c && leb c b'9'

-- `[a-z]` without regard to case.
abbrev pub is_letter : ℕ → Bool
is_letter c = leb b'a' c && leb c b'z' || leb b'A' c && leb c b'Z'

abbrev pub lower : ℕ → ℕ
lower c = if leb b'A' c && leb c b'Z' then c + 32 else c

abbrev is_protocol_char : ℕ → Bool
is_protocol_char c = is_letter c || is_digit c || c == b'+' || c == b'.' || c == b'-'

-- `[a-z\d+.-]*:\/\/`
abbrev protocol_rest : List ℕ → Bool
protocol_rest [] = false
protocol_rest (c ∷ s) =
    (λ (rest : Bool). if c == b':' then begins (codes "//") s else is_protocol_char c && rest)
      (protocol_rest s)

-- `/^[a-z][a-z\d+.-]*:\/\//i`
abbrev has_protocol : List ℕ → Bool
has_protocol [] = false
has_protocol (c ∷ s) = is_letter c && protocol_rest s

-- What follows a text in lower case, without regard to case.
abbrev after : List ℕ → List ℕ → Option (List ℕ)
after [] s = some s
after (c ∷ p) [] = none
after (c ∷ p) (d ∷ s) = if c == lower d then after p s else none

-- `.` of an expression matches no line's end.
abbrev is_line_end : ℕ → Bool
is_line_end c = c == 10 || c == 13 || c == 0x2028 || c == 0x2029

abbrev is_one_line : List ℕ → Bool
is_one_line [] = true
is_one_line (c ∷ s) = not (is_line_end c) && is_one_line s

-- `(\/.*)?$`
abbrev is_path : List ℕ → Bool
is_path [] = true
is_path (c ∷ s) = c == b'/' && is_one_line s

abbrev digits_and_path : List ℕ → Bool
digits_and_path [] = true
digits_and_path (c ∷ s) = if is_digit c then digits_and_path s else is_path (c ∷ s)

-- `(:\d+)?(\/.*)?$`
abbrev is_port_and_path : List ℕ → Bool
is_port_and_path (c ∷ d ∷ s) =
    if c == b':' then is_digit d && digits_and_path s else is_path (c ∷ d ∷ s)
is_port_and_path s = is_path s

abbrev is_at : String → List ℕ → Bool
is_at host s = elim (after (codes host) s) [ none ↦ false | some rest ↦ is_port_and_path rest ]

unfoldable pub coerce_local_development_url : String → String
coerce_local_development_url value =
    let s = codes value in
    if has_protocol s
    then value
    else if is_at "localhost" s || is_at "127.0.0.1" s
    then concat "http://" value
    else if is_at "[::1]" s
    then concat "http://" value
    else value

-- `replace(/\/+$/, "")`
unfoldable pub strip_slashes : String → String
strip_slashes String.[] = ""
strip_slashes (String.◌∷◌ c s) =
    let rest = strip_slashes s in
    if truthy rest then String.◌∷◌ c rest else if code c == b'/' then "" else String.◌∷◌ c ""

abbrev pub is_secure : Url → Bool
is_secure u = u.protocol === "https:" || u.protocol === "http:" && is_loopback_hostname u.hostname

module _ (env : Env) where
  abbrev pub secure_address : Url → Result String
  secure_address u =
      if not (u.protocol === "https:")
        && not (u.protocol === "http:" && is_loopback_hostname u.hostname)
      then err "Server URL must start with https://, or use http:// for localhost testing."
      else ok (strip_slashes (env.show_url (env.bare_url u (strip_slashes u.pathname))))

  abbrev pub parsed_address : Option Url → Result String
  parsed_address none = err "Enter a valid server URL, including https:// or http://localhost."
  parsed_address (some u) = secure_address u

  unfoldable pub normalize_server_url : String → Result String
  unfolding coerce_local_development_url strip_slashes trim
  normalize_server_url value =
      let trimmed = coerce_local_development_url (trim value) in
      if not (truthy trimmed)
      then err "Server URL is required."
      else parsed_address (env.parse_url trimmed)

coerce_tests :
    (coerce_local_development_url "LocalHost:4000/a" ≡ "http://LocalHost:4000/a")
    × (coerce_local_development_url "localhost:/" ≡ "localhost:/")
    × (coerce_local_development_url "localhost.evil" ≡ "localhost.evil")
    × (coerce_local_development_url "h+2.x-y://[::1]" ≡ "h+2.x-y://[::1]")
    × (coerce_local_development_url "[::1]" ≡ "http://[::1]")
    × (strip_slashes "https://a//b//" ≡ "https://a//b")
unfolding coerce_local_development_url strip_slashes
coerce_tests = (refl, refl, refl, refl, refl, refl)
