-- ===== src/Mailbox/Status.antt =====
-- mailbox_private_crypto.js: the unlock mode, the texts of the forms, and the fields that the page
-- fills.
use elektrine.Base.{
  ◌≡◌, refl, String, Bool, false, ◌||◌, ◌===◌, Option, none, some, List, [], ◌∷◌, if◌then◌else◌,
  trim,
}
use elektrine.Mailbox.Wrap.{master_mode, is_known_unlock_mode}

-- `payload.unlock_mode || payload.unlockMode` of each payload, where it is an object; an absent mode is empty.
unfoldable pub unlock_mode_from_payload : List (Option String) → Option String
unlock_mode_from_payload [] = none
unlock_mode_from_payload (none ∷ payloads) = unlock_mode_from_payload payloads
unlock_mode_from_payload (some mode ∷ payloads) =
    (λ (rest : Option String). if is_known_unlock_mode mode then some mode else rest)
      (unlock_mode_from_payload payloads)

abbrev locked_status_text : String → String
locked_status_text mode =
    if mode === master_mode
    then "Mailbox locked. Enter your account password to continue."
    else if mode === "account_password"
    then "Mailbox locked. Enter your account password to continue."
    else "Mailbox locked."

abbrev unlock_secret_label : String → String
unlock_secret_label mode =
    if mode === master_mode
    then "account password"
    else if mode === "account_password"
    then "account password"
    else "mailbox passphrase"

abbrev unlock_secret_placeholder : String → String
unlock_secret_placeholder mode =
    if mode === master_mode
    then "Account password"
    else if mode === "account_password"
    then "Account password"
    else "Mailbox passphrase"

-- A field of a form, with what the page last put there.
record Field : Type 0 where
  value : String
  last_applied : Option String

abbrev is_applied : Option String → String → Bool
is_applied none value = false
is_applied (some text) value = value === text

abbrev is_matched : Option (String → Bool) → String → Bool
is_matched none value = false
is_matched (some matcher) value = matcher value

unfoldable maybe_set_value : Option Field → String → Option (String → Bool) → Option Field
unfolding trim
maybe_set_value none next_value matcher = none
maybe_set_value (some f) next_value matcher =
    if trim f.value === "" || is_applied f.last_applied f.value || is_matched matcher f.value
    then some (record { value = next_value; last_applied = some next_value })
    else some f

status_tests :
    (unlock_mode_from_payload (none ∷ some "other" ∷ some "master" ∷ some "account_password" ∷ [])
      ≡ some "master")
    × (maybe_set_value (some (record { value = "mine"; last_applied = some "a" })) "b" none
        ≡ some (record { value = "mine"; last_applied = some "a" }))
    × (maybe_set_value (some (record { value = "a"; last_applied = some "a" })) "b" none
        ≡ some (record { value = "b"; last_applied = some "b" }))
unfolding unlock_mode_from_payload maybe_set_value
status_tests = (refl, refl, refl)
