-- ===== src/Nerve/Crypto.antt =====
-- lib/crypto.js: the payloads of the encrypted fields and the associated data that AES-GCM
-- authenticates with them.
use Prim.Native.Char.{code}
use elektrine.Base.{
  ℕ, ◌/◌, ◌%◌, String, Bool, false, ◌&&◌, Option, none, some, ltb, ◌==◌, if◌then◌else◌, text_of,
  is_some, ◌≡◌, refl, trim, concat, ◌===◌,
}
use elektrine.Nerve.Types.{Payload, Entry, Env, AssociatedData, metadata, entry_field, Result, err}

-- `isClientPayload`
unfoldable pub is_client_payload : Option Payload → Bool
is_client_payload none = false
is_client_payload (some p) = p.algorithm === "AES-GCM" && is_some p.iv && is_some p.ciphertext

-- `nerveEntryAssociatedData`
abbrev pub entry_associated_data : String → String → String → String → AssociatedData
entry_associated_data title username website field =
    entry_field field (trim title) (trim username) (trim website)

abbrev pub associated_data_of : Entry → String → AssociatedData
associated_data_of entry field =
    entry_associated_data (text_of entry.title) (text_of entry.login_username)
      (text_of entry.website) field

hex_digit : ℕ → String
hex_digit n =
    if n == 0
    then "0"
    else if n == 1
    then "1"
    else if n == 2
    then "2"
    else if n == 3
    then "3"
    else if n == 4
    then "4"
    else if n == 5
    then "5"
    else if n == 6
    then "6"
    else if n == 7
    then "7"
    else if n == 8
    then "8"
    else if n == 9
    then "9"
    else if n == 10
    then "a"
    else if n == 11
    then "b"
    else if n == 12
    then "c"
    else if n == 13
    then "d"
    else if n == 14
    then "e"
    else "f"

-- What `JSON.stringify` writes for one character that is no plain one.
escape : ℕ → Option String
escape c =
    if c == 34
    then some "\\\""
    else if c == 92
    then some "\\\\"
    else if c == 8
    then some "\\b"
    else if c == 9
    then some "\\t"
    else if c == 10
    then some "\\n"
    else if c == 12
    then some "\\f"
    else if c == 13
    then some "\\r"
    else if ltb c 32
    then some (concat "\\u00" (concat (hex_digit (c / 16)) (hex_digit (c % 16))))
    else none

quote_rest : String → String
quote_rest String.[] = "\""
quote_rest (String.◌∷◌ c s) = elim (escape (code c)) [
  | none ↦ String.◌∷◌ c (quote_rest s)
  | some text ↦ concat text (quote_rest s)
]

-- `JSON.stringify` of a string.
unfoldable pub quote : String → String
unfolding hex_digit escape quote_rest
quote s = concat "\"" (quote_rest s)

-- `stableJson`: the keys are in order.
unfoldable pub stable_json : AssociatedData → String
stable_json metadata = "{\"purpose\":\"elektrine-nerve-metadata\"}"
stable_json (entry_field field title login_username website) =
    concat
      (concat (concat "{\"field\":" (quote field)) (
        concat (concat ",\"login_username\":" (quote login_username))
          ",\"purpose\":\"elektrine-nerve-entry\",\"title\":"))
      (concat (quote title) (concat ",\"website\":" (concat (quote website) "}")))

stable_json_test :
    stable_json (entry_field "password" "a\"b" "me" "x")
    ≡ "{\"field\":\"password\",\"login_username\":\"me\",\"purpose\":\"elektrine-nerve-entry\",\"title\":\"a\\\"b\",\"website\":\"x\"}"
unfolding stable_json quote
stable_json_test = refl

module _ (env : Env) where
  -- `encryptValue` and `decryptValue`; a payload of another shape throws before it is decrypted.
  unfoldable pub encrypt_value : String → String → AssociatedData → Payload
  encrypt_value plaintext key ad =
      let (iv, ciphertext) = env.encrypt plaintext key (stable_json ad) in
      record { algorithm = "AES-GCM"; iv = some iv; ciphertext = some ciphertext }

  unfoldable pub decrypt_value : Option Payload → String → AssociatedData → Result String
  unfolding is_client_payload
  decrypt_value none key ad = err "Nerve payload is not valid client-side ciphertext."
  decrypt_value (some p) key ad =
      if is_client_payload (some p)
      then env.decrypt (text_of p.iv) (text_of p.ciphertext) key (stable_json ad)
      else err "Nerve payload is not valid client-side ciphertext."
