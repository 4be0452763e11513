-- ===== src/Vault/Recovery/Tests.antt =====
-- Recovery codes on a toUpperCase of ASCII.
use elektrine.Base.{
  ℕ, ◌-◌, ◌≡◌, refl, ap, ◌∙◌, true, ◌&&◌, List, [], ◌∷◌, if◌then◌else◌, leb, map, all_true,
  and_left, and_right, arith,
}
use elektrine.Vault.Recovery.{codes, generate_recovery_code, normalize_recovery_code}
use elektrine.Vault.Recovery.RoundTrip.{is_plain, bytes_of, generate-normalize}

abbrev upper_char : ℕ → ℕ
upper_char c = if leb b'a' c && leb c b'z' then c - 32 else c

abbrev to_upper : List ℕ → List ℕ
to_upper s = map upper_char s

upper_char-plain : (c : ℕ) → is_plain c ≡ true → upper_char c ≡ c
upper_char-plain c h = ground arith

to_upper-plain : (s : List ℕ) → all_true is_plain s ≡ true → to_upper s ≡ s
to_upper-plain [] h = refl
to_upper-plain (c ∷ s) h =
    ap (λ d. d ∷ to_upper s) (upper_char-plain c (and_left (is_plain c) (all_true is_plain s) h))
    ∙ ap (λ r. c ∷ r) (to_upper-plain s (and_right (is_plain c) (all_true is_plain s) h))

recovery_code_test : generate_recovery_code (0 ∷ 255 ∷ 33 ∷ []) ≡ codes "AA99-BE"
recovery_code_test = refl

-- A code may be typed in small letters, with spaces for dashes.
typed_test : bytes_of (normalize_recovery_code to_upper (codes " aa99 be")) ≡ 0 ∷ 255 ∷ 33 ∷ []
typed_test = refl

generate-normalize_example :
    bytes_of (normalize_recovery_code to_upper (generate_recovery_code (0 ∷ 255 ∷ 33 ∷ [])))
    ≡ 0 ∷ 255 ∷ 33 ∷ []
generate-normalize_example = generate-normalize to_upper (0 ∷ 255 ∷ 33 ∷ []) to_upper-plain refl
