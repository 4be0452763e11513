-- ===== src/Mailbox/Pem.antt =====
-- mailbox_private_crypto.js: a new key pair, its public key in PEM (generateMailboxKeypair, bytesToPem, chunkString).
use elektrine.Base.{
  ℕ, zero, suc, ◌≡◌, refl, ap, ◌∙◌, ◌≤◌, String, List, [], ◌∷◌, concat, arith, Option, none,
  if◌then◌else◌, truthy, slice_to, slice_from, text_length,
}
use Prim.Native.String.append
use elektrine.Base.Effects.{Result, ok, bind_result}
use elektrine.Mailbox.Types.{Bytes, Env}

-- The parts of `chunkString`; the fuel is the number of rounds.
abbrev parts : (fuel size : ℕ) → String → List String
parts zero size s = []
parts (suc fuel) size String.[] = []
parts (suc fuel) size (String.◌∷◌ c s) =
    slice_to size (String.◌∷◌ c s) ∷ parts fuel size (slice_from size (String.◌∷◌ c s))

abbrev join_lines : List String → String
join_lines [] = ""
join_lines (s ∷ []) = s
join_lines (s ∷ t ∷ r) = concat s (concat "\n" (join_lines (t ∷ r)))

abbrev chunk_string : String → ℕ → String
chunk_string value size = join_lines (parts (text_length value) size value)

abbrev together : List String → String
together [] = ""
together (s ∷ r) = concat s (together r)

append-nil : (t : String) → concat "" t ≡ t
append-nil t = append.nil t

slice-together : (n : ℕ) (s : String) → concat (slice_to n s) (slice_from n s) ≡ s
slice-together zero s = append-nil s
slice-together (suc n) String.[] = append-nil ""
slice-together (suc n) (String.◌∷◌ c s) =
    append.cons c (slice_to n s) (slice_from n s) ∙ ap (String.◌∷◌ c) (slice-together n s)

slice_from-shorter : (n : ℕ) (s : String) → text_length (slice_from n s) ≤ text_length s
slice_from-shorter zero s = omega arith
slice_from-shorter (suc n) String.[] = omega arith
slice_from-shorter (suc n) (String.◌∷◌ c s) = omega (arith, slice_from-shorter n s)

-- With as much fuel as there are characters, nothing is left out, whatever the size from one on.
parts-together :
    (fuel size : ℕ) (s : String) → text_length s ≤ fuel → together (parts fuel (suc size) s) ≡ s
parts-together zero size String.[] h = refl
parts-together zero size (String.◌∷◌ c s) h = absurd (omega (arith, h))
parts-together (suc fuel) size String.[] h = refl
parts-together (suc fuel) size (String.◌∷◌ c s) h =
    ap (concat (slice_to (suc size) (String.◌∷◌ c s)))
      (parts-together fuel size (slice_from size s) (omega (arith, slice_from-shorter size s)))
    ∙ slice-together (suc size) (String.◌∷◌ c s)

-- `bytesToPem`
unfoldable bytes_to_pem : Env → Bytes → String → String
bytes_to_pem env bytes label =
    concat (concat "-----BEGIN " (concat label "-----\n"))
      (concat (chunk_string (env.btoa bytes) 64) (concat "\n-----END " (concat label "-----")))

-- `generateMailboxKeypair`, of the two exported halves of the pair that `generateKey` answers.
unfoldable generate_mailbox_keypair : Env → Result (Bytes × Bytes) → Result (String × Bytes)
unfolding bytes_to_pem
generate_mailbox_keypair env generated =
    bind_result generated (λ pair. ok (bytes_to_pem env pair.0 "PUBLIC KEY", pair.1))

-- `parsePayload`, of `JSON.parse`.
unfoldable parse_payload {ℓ} : {A : Type ℓ} → (String → Option A) → String → Option A
parse_payload parse raw = if truthy raw then parse raw else none

chunk_string_tests :
    (chunk_string "abcde" 2 ≡ "ab\ncd\ne")
    × (chunk_string "abcd" 2 ≡ "ab\ncd")
    × (chunk_string "" 2 ≡ "")
chunk_string_tests = (refl, refl, refl)
