-- ===== src/Nerve/Password.antt =====
-- createPassword (lib/crypto.js). crypto.getRandomValues is a list of draws, each below 2 ^ 32:
-- where they run out the code still waits for one, and the model answers `none`.
pub mod Classes
pub mod Made
pub mod Draws
pub mod Uniform
mod Tests
use Prim.Native.Char.{code}
use elektrine.Base.{
  ℕ, zero, suc, ◌+◌, ◌-◌, ◌*◌, ◌/◌, ◌%◌, ◌^◌, String, Option, none, some, List, [], ◌∷◌, ◌++◌,
  if◌then◌else◌, ltb, length, get_elem?,
}

abbrev pub password_length : ℕ
password_length = 24

-- A password that is being made is a list of code points.
abbrev pub codes : String → List ℕ
codes String.[] = []
codes (String.◌∷◌ c s) = code c ∷ codes s

abbrev pub lowercase : List ℕ
lowercase = codes "abcdefghijklmnopqrstuvwxyz"

abbrev pub uppercase : List ℕ
uppercase = codes "ABCDEFGHIJKLMNOPQRSTUVWXYZ"

abbrev pub digits : List ℕ
digits = codes "0123456789"

abbrev pub symbols : List ℕ
symbols = codes "!@#$%^&*()-_=+"

abbrev pub all_characters : List ℕ
all_characters = lowercase ++ uppercase ++ digits ++ symbols

abbrev pub Draw {ℓ} : Type ℓ → Type ℓ
Draw A = List ℕ → Option (A × List ℕ)

abbrev pub continue {ℓ κ} :
    {A : Type ℓ} {B : Type κ} → Option (A × List ℕ) → (A → Draw B) → Option (B × List ℕ)
continue none f = none
continue (some (a, draws)) f = f a draws

infixl 5 ◌>>=◌
abbrev pub ◌>>=◌ {ℓ κ} : {A : Type ℓ} {B : Type κ} → Draw A → (A → Draw B) → Draw B
◌>>=◌ m f draws = continue (m draws) f

abbrev pub pure {ℓ} : {A : Type ℓ} → A → Draw A
pure a draws = some (a, draws)

abbrev pub found : Option ℕ → Draw ℕ
found none draws = none
found (some x) draws = some (x, draws)

-- `array[i]`; an index out of range answers `none`.
abbrev pub at : List ℕ → ℕ → Draw ℕ
at xs i = found (get_elem? xs i)

abbrev pub set_at : List ℕ → ℕ → ℕ → List ℕ
set_at [] i y = []
set_at (x ∷ xs) zero y = y ∷ xs
set_at (x ∷ xs) (suc i) y = x ∷ set_at xs i y

unfoldable pub limit : ℕ → ℕ
limit max = 2 ^ 32 / max * max

unfoldable pub random_int : ℕ → Draw ℕ
unfolding limit
random_int max [] = none
random_int max (value ∷ draws) =
    let rest = random_int max draws in
    if ltb value (limit max) then some (value % max, draws) else rest

unfoldable pub pick : List ℕ → Draw ℕ
pick characters = do i ← random_int (length characters); at characters i

-- `while (chars.length < PASSWORD_LENGTH)`, with what is missing of the length.
unfoldable pub fill_up : ℕ → List ℕ → Draw (List ℕ)
unfolding pick
fill_up zero chars = pure chars
fill_up (suc n) chars = do c ← pick all_characters; fill_up n (chars ++ c ∷ [])

abbrev pub swap : List ℕ → ℕ → ℕ → Draw (List ℕ)
swap chars i j = do x ← at chars i; y ← at chars j; pure (set_at (set_at chars i y) j x)

-- `for (let i = chars.length - 1; i > 0; i -= 1)`
unfoldable pub shuffle : ℕ → List ℕ → Draw (List ℕ)
unfolding random_int
shuffle zero chars = pure chars
shuffle (suc i) chars = do
  j ← random_int (suc i + 1)
  swapped ← swap chars (suc i) j
  shuffle i swapped

unfoldable pub create_password : Draw (List ℕ)
unfolding pick fill_up shuffle
create_password = do
  a ← pick lowercase
  b ← pick uppercase
  c ← pick digits
  d ← pick symbols
  let chars = a ∷ b ∷ c ∷ d ∷ [] in
      do filled ← fill_up (password_length - length chars) chars; shuffle (length filled - 1) filled
