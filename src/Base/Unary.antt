-- ===== src/Base/Unary.antt =====
-- Bytes as a text in unary: a concrete codec, for the examples.
use Prim.Native.Char.{code}
use elektrine.Base.{
  ℕ, zero, suc, ◌+◌, ◌≡◌, refl, ap, ◌∙◌, String, Bool, true, false, Option, none, some, List, [],
  ◌∷◌, ◌==◌, arith,
}

unfoldable pub unary : ℕ → String → String
unary zero rest = String.◌∷◌ "," rest
unary (suc n) rest = String.◌∷◌ "1" (unary n rest)

unfoldable pub encode : List ℕ → String
unfolding unary
encode [] = ""
encode (n ∷ bytes) = unary n (encode bytes)

unfoldable pub decode_char : Bool → ℕ → (ℕ → Option (List ℕ)) → Option (List ℕ)
decode_char true n rest = rest (suc n)
decode_char false n rest = elim (rest 0) [ none ↦ none | some bytes ↦ some (n ∷ bytes) ]

unfoldable pub decode : String → ℕ → Option (List ℕ)
unfolding decode_char
decode String.[] n = some []
decode (String.◌∷◌ c s) n = decode_char (code c == b'1') n (decode s)

decode-unary :
    (n k : ℕ) (rest : String) (bytes : List ℕ)
    → decode rest 0 ≡ some bytes
    → decode (unary n rest) k ≡ some ((n + k) ∷ bytes)
unfolding decode unary
decode-unary zero k rest bytes h =
    rw (decode, decode_char, h) (ap (λ m. some (m ∷ bytes)) (omega arith))
decode-unary (suc n) k rest bytes h =
    decode-unary n (suc k) rest bytes h ∙ ap (λ m. some (m ∷ bytes)) (omega arith)

pub decode-encode : (bytes : List ℕ) → decode (encode bytes) 0 ≡ some bytes
unfolding decode encode
decode-encode [] = refl
decode-encode (n ∷ bytes) =
    decode-unary n 0 (encode bytes) bytes (decode-encode bytes)
    ∙ ap (λ m. some (m ∷ bytes)) (omega arith)
