-- ===== src/Markdown/Text.antt =====
-- Texts as lists of code points, with the methods of strings that the preview calls.
use Prim.Native.Char.{code}
use elektrine.Base.{
  ◌+◌, suc, zero, ℕ, String, Bool, true, false, ◌&&◌, ◌||◌, List, [], ◌∷◌, ◌++◌, if◌then◌else◌, leb,
  ◌==◌, is_space,
}

abbrev pub Text : Type 0
Text = List ℕ

abbrev pub codes : String → Text
codes String.[] = []
codes (String.◌∷◌ c s) = code c ∷ codes s

-- `startsWith`, and what follows the prefix.
abbrev pub begins : Text → Text → Bool
begins [] s = true
begins (c ∷ p) [] = false
begins (c ∷ p) (d ∷ s) = c == d && begins p s

abbrev pub drop_while : (ℕ → Bool) → Text → Text
drop_while f [] = []
drop_while f (c ∷ s) = if f c then drop_while f s else c ∷ s

abbrev pub drop_last_while : (ℕ → Bool) → Text → Text
drop_last_while f [] = []
drop_last_while f (c ∷ s) = elim (drop_last_while f s) [
  | [] ↦ if f c then [] else c ∷ []
  | d ∷ r ↦ c ∷ d ∷ r
]

unfoldable pub trim_text : Text → Text
unfolding is_space
trim_text s = drop_last_while is_space (drop_while is_space s)

-- `replaceAll` of one character.
abbrev pub replace_char : ℕ → Text → Text → Text
replace_char c by [] = []
replace_char c by (d ∷ s) = (if d == c then by else d ∷ []) ++ replace_char c by s

abbrev pub onto_first : ℕ → List Text → List Text
onto_first c [] = (c ∷ []) ∷ []
onto_first c (s ∷ ss) = (c ∷ s) ∷ ss

-- `split` at one character; there is always a first part.
abbrev pub split_at : ℕ → Text → List Text
split_at c [] = [] ∷ []
split_at c (d ∷ s) =
    (λ (rest : List Text). if d == c then [] ∷ rest else onto_first d rest) (split_at c s)

abbrev pub is_empty : Text → Bool
is_empty [] = true
is_empty (c ∷ s) = false

abbrev pub is_digit : ℕ → Bool
is_digit c = leb b'0' c && leb c b'9'

abbrev pub is_letter : ℕ → Bool
is_letter c = leb b'a' c && leb c b'z' || leb b'A' c && leb c b'Z'

-- `toLowerCase`, of ASCII.
abbrev pub lower : ℕ → ℕ
lower c = if leb b'A' c && leb c b'Z' then c + 32 else c

-- `substring` from a position on.
abbrev pub drop_chars : ℕ → Text → Text
drop_chars zero s = s
drop_chars (suc n) [] = []
drop_chars (suc n) (c ∷ s) = drop_chars n s

-- `join('\n')`
abbrev pub join_lines : List Text → Text
join_lines [] = []
join_lines (s ∷ []) = s
join_lines (s ∷ t ∷ r) = s ++ (10 ∷ []) ++ join_lines (t ∷ r)
