-- ===== src/Vault/Recovery.antt =====
-- vault_crypto.js: the recovery code of a vault (generateRecoveryCode, normalizeRecoveryCode), as code points.
pub mod RoundTrip
mod Tests
use Prim.Native.Char.{code}
use elektrine.Base.{
  ℕ, ◌%◌, ◌/◌, String, Bool, ◌&&◌, ◌||◌, Option, none, some, List, [], ◌∷◌, ◌++◌, leb, get_elem?,
  keep_if,
}

abbrev pub codes : String → List ℕ
codes String.[] = []
codes (String.◌∷◌ c s) = code c ∷ codes s

abbrev pub recovery_alphabet : List ℕ
recovery_alphabet = codes "ABCDEFGHJKLMNPQRSTUVWXYZ23456789"

-- What `out +=` appends for an entry of the alphabet.
abbrev pub symbol_of : Option ℕ → List ℕ
symbol_of none = codes "undefined"
symbol_of (some c) = c ∷ []

-- `RECOVERY_ALPHABET[byte & 31]` and `RECOVERY_ALPHABET[(byte >> 3) & 31]` of each byte.
abbrev pub code_symbols : List ℕ → List ℕ
code_symbols [] = []
code_symbols (byte ∷ bytes) =
    symbol_of (get_elem? recovery_alphabet (byte % 32))
    ++ (symbol_of (get_elem? recovery_alphabet (byte / 8 % 32)) ++ code_symbols bytes)

-- `match(/.{1,4}/g).join("-")`, of a text that is not empty.
abbrev pub grouped : List ℕ → List ℕ
grouped (a ∷ b ∷ c ∷ d ∷ e ∷ s) = a ∷ b ∷ c ∷ d ∷ b'-' ∷ grouped (e ∷ s)
grouped s = s

-- Of the random bytes, which are thirty-two.
abbrev pub generate_recovery_code : List ℕ → List ℕ
generate_recovery_code bytes = grouped (code_symbols bytes)

-- `[A-Z0-9]`
abbrev pub is_code_char : ℕ → Bool
is_code_char c = leb b'A' c && leb c b'Z' || leb b'0' c && leb c b'9'

-- With `toUpperCase`.
abbrev pub normalize_recovery_code : (List ℕ → List ℕ) → List ℕ → List ℕ
normalize_recovery_code to_upper value = keep_if is_code_char (to_upper value)
