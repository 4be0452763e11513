-- ===== src/Chat/Trust.antt =====
-- chat_e2ee_hook.js: the fingerprints with which devices are trusted (ensureDevicesTrusted).
-- `Promise.all` runs on after a rejection, and answers the first one.
pub mod Stated
pub mod Laws
use elektrine.Base.{
  ℕ, String, Bool, true, false, Option, none, some, List, [], ◌∷◌, if◌then◌else◌, ◌==◌, ◌===◌,
  truthy, or_text, text_of, concat,
}
use elektrine.Base.Effects.{Result, ok, err, pure, throw, lift, modify, ◌>>=◌, ◌>>◌}
use elektrine.Chat.Types.{KeyPayload, Device, Env}
use elektrine.Chat.Store.{M, put, load_secure_json, at_text}
use elektrine.Chat.Devices.{
  signing_public_key_payload, device_fingerprint_payload, device_fingerprint, stable_devices,
}

abbrev number_text : (ℕ → String) → Option ℕ → String
number_text decimal none = ""
number_text decimal (some n) = if n == 0 then "" else decimal n

unfoldable pub device_trust_storage_key : (ℕ → String) → Device → String
device_trust_storage_key decimal d =
    let handle = text_of d.recipient_handle in
    let owner =
      if truthy handle
      then concat "remote:" (concat (text_of d.origin_domain) (concat ":" handle))
      else concat "local:" (number_text decimal d.user_id) in
    concat "elektrine:chat-e2ee:v1:trust:" (concat owner (concat ":device:" d.device_id))

abbrev pub valid_or_throw : String → Option Bool → Result String
valid_or_throw fingerprint none = err "DataError"
valid_or_throw fingerprint (some false) = err "untrusted_device"
valid_or_throw fingerprint (some true) = ok fingerprint

-- `trusted` is what was stored for the device.
abbrev pub compare_trust : String → String → String → M (Unit {0})
compare_trust storage_key fingerprint trusted =
    if truthy trusted
    then if trusted === fingerprint then pure tt else throw "untrusted_device"
    else modify (λ s. record s { trust = at_text storage_key (put fingerprint) s.trust })

abbrev pub load_trusted : String → M String
load_trusted storage_key s =
    let loaded = load_secure_json (s.trust storage_key) in
    (ok (text_of loaded.0), record s { trust = at_text storage_key loaded.1 s.trust })

abbrev pub both : Result (Unit {0}) → Result (Unit {0}) → Result (Unit {0})
both (ok u) r = r
both (err e) r = err e

module _ (env : Env) where
  abbrev pub checked_signature : Device → String → Option KeyPayload → Result String
  checked_signature d fingerprint none = ok fingerprint
  checked_signature d fingerprint (some p) =
      let signature = text_of d.device_signature in
      if truthy signature
      then if p.algorithm === "ECDSA-P256-SHA256"
        then valid_or_throw fingerprint (
            env.verify p.key signature
              (env.signature_text (device_fingerprint_payload d) fingerprint))
        else err "Invalid chat signing key"
      else ok fingerprint

  unfoldable pub verified_device_fingerprint : Device → Result String
  unfolding device_fingerprint signing_public_key_payload
  verified_device_fingerprint d =
      let computed = device_fingerprint env d in
      let advertised = or_text (text_of d.fingerprint) computed in
      if advertised === computed
      then checked_signature d advertised (signing_public_key_payload d)
      else err "untrusted_device"

  unfoldable pub ensure_device_trusted : Device → M (Unit {0})
  unfolding load_secure_json
  ensure_device_trusted d = do
    fingerprint ← lift (verified_device_fingerprint d)
    trusted ← load_trusted (device_trust_storage_key env.decimal d)
    compare_trust (device_trust_storage_key env.decimal d) fingerprint trusted

  unfoldable pub trust_all : List Device → M (Unit {0})
  trust_all [] s = (ok tt, s)
  trust_all (d ∷ ds) s =
      let first = ensure_device_trusted d s in
      let rest = trust_all ds first.1 in (both first.0 rest.0, rest.1)

  unfoldable pub ensure_devices_trusted : List Device → M (Unit {0})
  unfolding trust_all
  ensure_devices_trusted devices = trust_all (stable_devices env devices)
