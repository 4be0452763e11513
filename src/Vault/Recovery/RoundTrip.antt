-- ===== src/Vault/Recovery/RoundTrip.antt =====
-- A recovery code and its normal form (generateRecoveryCode, normalizeRecoveryCode).
use elektrine.Base.{
  ℕ, zero, suc, ◌+◌, ◌*◌, ◌%◌, ◌/◌, ◌<◌, ◌≡◌, refl, ap, ◌∙◌, Bool, true, false, ◌&&◌, ◌||◌, Option,
  none, some, List, [], ◌∷◌, ◌++◌, if◌then◌else◌, ◌==◌, ltb, get_elem?, keep_if, all_true, arith,
  and_left, and_right, and_of, inl, inr, Bool-cases, ==→eq,
}
use elektrine.Vault.Recovery.{
  recovery_alphabet, symbol_of, code_symbols, grouped, generate_recovery_code, is_code_char,
  normalize_recovery_code,
}

-- The place of a character.
abbrev place : ℕ → List ℕ → ℕ
place c [] = 0
place c (d ∷ ds) = let rest = place c ds in if c == d then 0 else suc rest

-- Each byte from its two characters: the first has its low five bits, the second its high five.
abbrev pub bytes_of : List ℕ → List ℕ
bytes_of (x ∷ y ∷ s) = (place y recovery_alphabet / 4 * 32 + place x recovery_alphabet) ∷ bytes_of s
bytes_of _ = []

abbrev is_good : ℕ → Option ℕ → Bool
is_good i none = false
is_good i (some c) = place c recovery_alphabet == i && is_code_char c

abbrev good_below : ℕ → Bool
good_below zero = true
good_below (suc n) = is_good n (get_elem? recovery_alphabet n) && good_below n

good_at : (n i : ℕ) → i < n → good_below n ≡ true → is_good i (get_elem? recovery_alphabet i) ≡ true
good_at zero i h k = absurd (omega (arith, h))
good_at (suc n) i h k = elim (Bool-cases (i == n)) [
  | inl e ↦
      ap (λ j. is_good j (get_elem? recovery_alphabet j)) (==→eq i n e)
      ∙ and_left (is_good n (get_elem? recovery_alphabet n)) (good_below n) k
  | inr e ↦
      good_at n i (ground arith)
        (and_right (is_good n (get_elem? recovery_alphabet n)) (good_below n) k)
]

found :
    (i : ℕ) (o : Option ℕ)
    → is_good i o ≡ true
    → (c : ℕ) × (symbol_of o ≡ c ∷ []) × (place c recovery_alphabet ≡ i) × (is_code_char c ≡ true)
found i none h = absurd (ground arith)
found i (some c) h = (
  c,
  refl,
  ==→eq (place c recovery_alphabet) i
      (and_left (place c recovery_alphabet == i) (is_code_char c) h),
  and_right (place c recovery_alphabet == i) (is_code_char c) h,
)

-- The character of each five bits is one, which a code may have, in its place.
good_symbol :
    (i : ℕ)
    → i < 32
    → (c : ℕ) × (symbol_of (get_elem? recovery_alphabet i) ≡ c ∷ [])
      × (place c recovery_alphabet ≡ i)
      × (is_code_char c ≡ true)
good_symbol i h = found i (get_elem? recovery_alphabet i) (good_at 32 i h refl)

abbrev pub is_plain : ℕ → Bool
is_plain c = is_code_char c || c == b'-'

plain_of_code : (c : ℕ) → is_code_char c ≡ true → is_plain c ≡ true
plain_of_code c h = ground arith

head_of : (c : ℕ) (s : List ℕ) → all_true is_code_char (c ∷ s) ≡ true → is_code_char c ≡ true
head_of c s = and_left (is_code_char c) (all_true is_code_char s)

tail_of :
    (c : ℕ) (s : List ℕ) → all_true is_code_char (c ∷ s) ≡ true → all_true is_code_char s ≡ true
tail_of c s = and_right (is_code_char c) (all_true is_code_char s)

plain_cons :
    (c : ℕ) (s : List ℕ)
    → is_code_char c ≡ true
    → all_true is_plain s ≡ true
    → all_true is_plain (c ∷ s) ≡ true
plain_cons c s h k = and_of (is_plain c) (all_true is_plain s) (plain_of_code c h) k

all-plain : (s : List ℕ) → all_true is_code_char s ≡ true → all_true is_plain s ≡ true
all-plain [] h = refl
all-plain (c ∷ s) h = plain_cons c s (head_of c s h) (all-plain s (tail_of c s h))

grouped-plain : (s : List ℕ) → all_true is_code_char s ≡ true → all_true is_plain (grouped s) ≡ true
grouped-plain (a ∷ b ∷ c ∷ d ∷ e ∷ s) h =
    let hb = tail_of a (b ∷ c ∷ d ∷ e ∷ s) h in
    let hc = tail_of b (c ∷ d ∷ e ∷ s) hb in
    let hd = tail_of c (d ∷ e ∷ s) hc in
    let r = b'-' ∷ grouped (e ∷ s) in
    plain_cons a (b ∷ c ∷ d ∷ r) (head_of a (b ∷ c ∷ d ∷ e ∷ s) h) (
      plain_cons b (c ∷ d ∷ r) (head_of b (c ∷ d ∷ e ∷ s) hb) (
        plain_cons c (d ∷ r) (head_of c (d ∷ e ∷ s) hc)
          (plain_cons d r (head_of d (e ∷ s) hd) (grouped-plain (e ∷ s) (tail_of d (e ∷ s) hd)))))
grouped-plain s h = all-plain s h

keep_cons :
    (c : ℕ) (s r : List ℕ)
    → is_code_char c ≡ true
    → keep_if is_code_char s ≡ r
    → keep_if is_code_char (c ∷ s) ≡ c ∷ r
keep_cons c s r h k = rw h (ap (λ x. c ∷ x) k)

keep_if-all : (s : List ℕ) → all_true is_code_char s ≡ true → keep_if is_code_char s ≡ s
keep_if-all [] h = refl
keep_if-all (c ∷ s) h = keep_cons c s s (head_of c s h) (keep_if-all s (tail_of c s h))

keep_if-grouped :
    (s : List ℕ) → all_true is_code_char s ≡ true → keep_if is_code_char (grouped s) ≡ s
keep_if-grouped (a ∷ b ∷ c ∷ d ∷ e ∷ s) h =
    let hb = tail_of a (b ∷ c ∷ d ∷ e ∷ s) h in
    let hc = tail_of b (c ∷ d ∷ e ∷ s) hb in
    let hd = tail_of c (d ∷ e ∷ s) hc in
    let r = b'-' ∷ grouped (e ∷ s) in
    keep_cons a (b ∷ c ∷ d ∷ r) (b ∷ c ∷ d ∷ e ∷ s) (head_of a (b ∷ c ∷ d ∷ e ∷ s) h) (
      keep_cons b (c ∷ d ∷ r) (c ∷ d ∷ e ∷ s) (head_of b (c ∷ d ∷ e ∷ s) hb) (
        keep_cons c (d ∷ r) (d ∷ e ∷ s) (head_of c (d ∷ e ∷ s) hc) (
          keep_cons d r (e ∷ s) (head_of d (e ∷ s) hd)
            (keep_if-grouped (e ∷ s) (tail_of d (e ∷ s) hd)))))
keep_if-grouped s h = keep_if-all s h

low_bits : (b : ℕ) → b % 32 < 32
low_bits b = omega arith

high_bits : (b : ℕ) → b / 8 % 32 < 32
high_bits b = omega arith

byte_bits : (b : ℕ) → b < 256 → b / 8 % 32 / 4 * 32 + b % 32 ≡ b
byte_bits b h = omega (arith, h)

code_symbols_cons :
    (b x y : ℕ) (bytes : List ℕ)
    → symbol_of (get_elem? recovery_alphabet (b % 32)) ≡ x ∷ []
    → symbol_of (get_elem? recovery_alphabet (b / 8 % 32)) ≡ y ∷ []
    → code_symbols (b ∷ bytes) ≡ x ∷ y ∷ code_symbols bytes
code_symbols_cons b x y bytes e f =
    ap (λ s. s ++ (symbol_of (get_elem? recovery_alphabet (b / 8 % 32)) ++ code_symbols bytes)) e
    ∙ ap (λ s. x ∷ (s ++ code_symbols bytes)) f

code_symbols-AreCode : (bytes : List ℕ) → all_true is_code_char (code_symbols bytes) ≡ true
code_symbols-AreCode [] = refl
code_symbols-AreCode (b ∷ bytes) =
    let (x, e, at_x, code_x) = good_symbol (b % 32) (low_bits b) in
    let (y, f, at_y, code_y) = good_symbol (b / 8 % 32) (high_bits b) in
    ap (all_true is_code_char) (code_symbols_cons b x y bytes e f)
    ∙ and_of (is_code_char x) (all_true is_code_char (y ∷ code_symbols bytes)) code_x (
        and_of (is_code_char y) (all_true is_code_char (code_symbols bytes)) code_y
          (code_symbols-AreCode bytes))

bytes_of-code_symbols :
    (bytes : List ℕ)
    → all_true (λ b. ltb b 256) bytes ≡ true
    → bytes_of (code_symbols bytes) ≡ bytes
bytes_of-code_symbols [] h = refl
bytes_of-code_symbols (b ∷ bytes) h =
    let (x, e, at_x, code_x) = good_symbol (b % 32) (low_bits b) in
    let (y, f, at_y, code_y) = good_symbol (b / 8 % 32) (high_bits b) in
    let small = and_left (ltb b 256) (all_true (λ c. ltb c 256) bytes) h in
    ap bytes_of (code_symbols_cons b x y bytes e f)
    ∙ ap (λ n. (n / 4 * 32 + place x recovery_alphabet) ∷ bytes_of (code_symbols bytes)) at_y
    ∙ ap (λ n. (b / 8 % 32 / 4 * 32 + n) ∷ bytes_of (code_symbols bytes)) at_x
    ∙ ap (λ n. n ∷ bytes_of (code_symbols bytes)) (byte_bits b (ground arith))
    ∙ ap (λ r. b ∷ r)
        (bytes_of-code_symbols bytes (and_right (ltb b 256) (all_true (λ c. ltb c 256) bytes) h))

-- If toUpperCase leaves capitals, digits and dashes as they are, then the normal form of a new code
-- has all of its random bytes.
pub generate-normalize :
    (to_upper : List ℕ → List ℕ) (bytes : List ℕ)
    → ((s : List ℕ) → all_true is_plain s ≡ true → to_upper s ≡ s)
    → all_true (λ b. ltb b 256) bytes ≡ true
    → bytes_of (normalize_recovery_code to_upper (generate_recovery_code bytes)) ≡ bytes
generate-normalize to_upper bytes upper h =
    let code = code_symbols-AreCode bytes in
    ap (λ s. bytes_of (keep_if is_code_char s))
      (upper (grouped (code_symbols bytes)) (grouped-plain (code_symbols bytes) code))
    ∙ ap bytes_of (keep_if-grouped (code_symbols bytes) code)
    ∙ bytes_of-code_symbols bytes h
