-- ===== src/Base/Text.antt =====
-- JavaScript strings: truthiness, `trim`, and prefixes. A string is a native `String`, walked by
-- code point.
use Prim.Native.Nat.{ℕ, zero, suc, ◌+◌, ◌≤◌}
use Prim.Native.Char.{code}
use Prim.Native.String
use Prim.Native.String.{String}
use Prim.Native.String.append
use mathlib.Core.Path.{◌≡◌, refl, ap, ◌∙◌}
use mathlib.Core.Logic.{inl, inr}
use mathlib.Core.Bool.{Bool, true, false, not, ◌&&◌, ◌||◌}
use mathlib.Core.Option.{Option, none, some}
use native.Mathlib.Omega.{arith}
use text.Mathlib.Text.{◌==◌ as text_eq, starts_with}
use elektrine.Base.Tests.{if◌then◌else◌, leb, ◌==◌, Bool-cases, and_of, and_left, and_right}

infix 50 ◌===◌
abbrev pub ◌===◌ : String → String → Bool
a === b = text_eq a b

-- A string is falsy exactly when it is empty.
abbrev pub truthy : String → Bool
truthy String.[] = false
truthy (String.◌∷◌ c s) = true

-- `a || b` on strings, and on a string that may be missing.
abbrev pub or_text : String → String → String
or_text a b = if truthy a then a else b

abbrev pub text_of : Option String → String
text_of none = ""
text_of (some s) = s

-- `a + b`, `s.slice(n)` for a prefix of `n` characters, and `s.includes(t)`.
abbrev pub concat : String → String → String
concat a b = String.◌++◌ a b

unfoldable pub drop_chars : ℕ → String → String
drop_chars zero s = s
drop_chars (suc n) String.[] = ""
drop_chars (suc n) (String.◌∷◌ c s) = drop_chars n s

-- `s.slice(0, n)`, `s.slice(n)` and `s.length`.
abbrev pub slice_to : ℕ → String → String
slice_to zero s = ""
slice_to (suc n) String.[] = ""
slice_to (suc n) (String.◌∷◌ c s) = String.◌∷◌ c (slice_to n s)

abbrev pub slice_from : ℕ → String → String
slice_from zero s = s
slice_from (suc n) String.[] = ""
slice_from (suc n) (String.◌∷◌ c s) = slice_from n s

abbrev pub text_length : String → ℕ
text_length String.[] = 0
text_length (String.◌∷◌ c s) = suc (text_length s)

abbrev pub all_chars : (ℕ → Bool) → String → Bool
all_chars p String.[] = true
all_chars p (String.◌∷◌ c s) = p (code c) && all_chars p s

unfoldable pub includes : String → String → Bool
includes String.[] t = starts_with "" t
includes (String.◌∷◌ c s) t = starts_with (String.◌∷◌ c s) t || includes s t

-- The white space and the line terminators that `trim` removes.
unfoldable pub is_space : ℕ → Bool
is_space c =
    leb 9 c && leb c 13
    || c == 32
    || c == 160
    || c == 0x1680
    || leb 0x2000 c && leb c 0x200a
    || c == 0x2028
    || c == 0x2029
    || c == 0x202f
    || c == 0x205f
    || c == 0x3000
    || c == 0xfeff

unfoldable pub trim_start : String → String
trim_start String.[] = ""
trim_start (String.◌∷◌ c s) = if is_space (code c) then trim_start s else String.◌∷◌ c s

unfoldable pub trim_end : String → String
trim_end String.[] = ""
trim_end (String.◌∷◌ c s) =
    let rest = trim_end s in
    if is_space (code c) && not (truthy rest) then "" else String.◌∷◌ c rest

unfoldable pub trim : String → String
unfolding is_space trim_start trim_end
trim s = trim_end (trim_start s)

trim_tests : (trim " a b \n" ≡ "a b") × (trim " \t" ≡ "")
unfolding trim
trim_tests = (refl, refl)

trim_end_idem : (s : String) → trim_end (trim_end s) ≡ trim_end s
unfolding trim_end
trim_end_idem String.[] = refl
trim_end_idem (String.◌∷◌ c s) = ground (arith, trim_end_idem s)

-- A text whose first character is no space.
abbrev StartsDark : String → Type 0
StartsDark String.[] = Unit
StartsDark (String.◌∷◌ c s) = is_space (code c) ≡ false

trim_start-StartsDark : (s : String) → StartsDark (trim_start s)
unfolding trim_start
trim_start-StartsDark String.[] = tt
trim_start-StartsDark (String.◌∷◌ c s) = elim (Bool-cases (is_space (code c))) [
  | inl e ↦ rw e (trim_start-StartsDark s)
  | inr e ↦ rw e e
]

trim_end-StartsDark : (s : String) → StartsDark s → StartsDark (trim_end s)
unfolding trim_end
trim_end-StartsDark String.[] h = tt
trim_end-StartsDark (String.◌∷◌ c s) h = rw h h

trim_start_of_StartsDark : (s : String) → StartsDark s → trim_start s ≡ s
unfolding trim_start
trim_start_of_StartsDark String.[] h = refl
trim_start_of_StartsDark (String.◌∷◌ c s) h = rw h

-- Trimming a second time changes nothing.
pub trim_idem : (s : String) → trim (trim s) ≡ trim s
unfolding trim
trim_idem s =
    rw (trim_start_of_StartsDark _ (trim_end-StartsDark _ (trim_start-StartsDark s)))
      (trim_end_idem (trim_start s))

-- A falsy string is the empty one.
pub eq-empty_of_truthy : (s : String) → truthy s ≡ false → s ≡ ""
eq-empty_of_truthy String.[] h = refl
eq-empty_of_truthy (String.◌∷◌ c s) h = cc

module _ (p : ℕ → Bool) where
  all_chars-trim_start : (s : String) → all_chars p s ≡ true → all_chars p (trim_start s) ≡ true
  unfolding trim_start
  all_chars-trim_start String.[] h = refl
  all_chars-trim_start (String.◌∷◌ c s) h = elim (Bool-cases (is_space (code c))) [
    | inl e ↦ rw e (all_chars-trim_start s (and_right (p (code c)) (all_chars p s) h))
    | inr e ↦ rw e h
  ]

  all_chars-trim_end : (s : String) → all_chars p s ≡ true → all_chars p (trim_end s) ≡ true
  unfolding trim_end
  all_chars-trim_end String.[] h = refl
  all_chars-trim_end (String.◌∷◌ c s) h =
      elim (Bool-cases (is_space (code c) && not (truthy (trim_end s)))) [
        | inl e ↦ rw e refl
        | inr e ↦ rw e (
            and_of (p (code c)) (all_chars p (trim_end s)) (and_left (p (code c)) (all_chars p s) h)
              (all_chars-trim_end s (and_right (p (code c)) (all_chars p s) h)))
      ]

  -- Trimming removes characters and adds none.
  pub all_chars-trim : (s : String) → all_chars p s ≡ true → all_chars p (trim s) ≡ true
  unfolding trim
  all_chars-trim s h = all_chars-trim_end (trim_start s) (all_chars-trim_start s h)

  pub all_chars-slice_to :
      (n : ℕ) (s : String) → all_chars p s ≡ true → all_chars p (slice_to n s) ≡ true
  all_chars-slice_to zero s h = refl
  all_chars-slice_to (suc n) String.[] h = refl
  all_chars-slice_to (suc n) (String.◌∷◌ c s) h =
      and_of (p (code c)) (all_chars p (slice_to n s)) (and_left (p (code c)) (all_chars p s) h)
        (all_chars-slice_to n s (and_right (p (code c)) (all_chars p s) h))

  pub all_chars-concat :
      (s t : String) → all_chars p s ≡ true → all_chars p t ≡ true → all_chars p (concat s t) ≡ true
  all_chars-concat String.[] t h k = ap (all_chars p) (append.nil t) ∙ k
  all_chars-concat (String.◌∷◌ c s) t h k =
      ap (all_chars p) (append.cons c s t)
      ∙ and_of (p (code c)) (all_chars p (concat s t)) (and_left (p (code c)) (all_chars p s) h)
          (all_chars-concat s t (and_right (p (code c)) (all_chars p s) h) k)

pub length-slice_to_le : (n : ℕ) (s : String) → text_length (slice_to n s) ≤ n
length-slice_to_le zero s = omega arith
length-slice_to_le (suc n) String.[] = omega arith
length-slice_to_le (suc n) (String.◌∷◌ c s) = omega (arith, length-slice_to_le n s)

pub length-concat : (s t : String) → text_length (concat s t) ≡ text_length s + text_length t
length-concat String.[] t = omega (arith, ap text_length (append.nil t))
length-concat (String.◌∷◌ c s) t =
    omega (arith, ap text_length (append.cons c s t), length-concat s t)
