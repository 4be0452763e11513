-- ===== src/Chat/Devices.antt =====
-- chat_e2ee_crypto.js: the devices of a conversation in a stable order, and their hash.
use elektrine.Base.{
  ℕ, String, Bool, Option, none, some, List, map, if◌then◌else◌, ◌===◌, truthy, or_text, text_of,
  sort,
}
use elektrine.Chat.Types.{
  KeyPayload, KeyField, no_key, bare, payload, Device, FingerprintPayload, Env,
}

-- `value || null`
abbrev pub or_null : Option String → Option String
or_null none = none
or_null (some s) = if truthy s then some s else none

-- A device of `stableDevices`: its algorithm and label are dropped.
unfoldable pub stable_device : Device → Device
stable_device d = record {
  user_id = d.user_id;
  recipient_handle = or_null d.recipient_handle;
  origin_domain = or_null d.origin_domain;
  device_id = d.device_id;
  public_key = d.public_key;
  key_algorithm = none;
  fingerprint = or_null d.fingerprint;
  signing_public_key = d.signing_public_key;
  device_signature = or_null d.device_signature;
}

abbrev payload_of : String → KeyField → Option KeyPayload
payload_of algorithm no_key = none
payload_of algorithm (bare key) =
    if truthy key then some (record { version = 1; algorithm = algorithm; key = key }) else none
payload_of algorithm (payload p) = some p

unfoldable pub signing_public_key_payload : Device → Option KeyPayload
signing_public_key_payload d = payload_of "ECDSA-P256-SHA256" d.signing_public_key

unfoldable pub device_public_key_payload : Device → Option KeyPayload
device_public_key_payload d = payload_of "RSA-OAEP-SHA256" d.public_key

unfoldable pub device_fingerprint_payload : Device → FingerprintPayload
unfolding signing_public_key_payload device_public_key_payload
device_fingerprint_payload d = record {
  device_id = d.device_id;
  key_algorithm = or_text (text_of d.key_algorithm) "RSA-OAEP-SHA256";
  public_key = device_public_key_payload d;
  signing_public_key = signing_public_key_payload d;
}

module _ (env : Env) where
  abbrev user_text : Option ℕ → String
  user_text none = "null"
  user_text (some n) = env.decimal n

  abbrev pub owner : Device → String
  owner d = or_text (text_of d.recipient_handle) (user_text d.user_id)

  -- The comparison of `stableDevices` is negative.
  unfoldable pub device_before : Device → Device → Bool
  device_before left right =
      if owner left === owner right
      then env.locale_before left.device_id right.device_id
      else env.locale_before (owner left) (owner right)

  unfoldable pub stable_devices : List Device → List Device
  unfolding stable_device
  stable_devices devices = sort device_before (map stable_device devices)

  unfoldable pub devices_hash : List Device → String
  unfolding stable_devices
  devices_hash devices = env.sha256 (env.stringify_devices (stable_devices devices))

  unfoldable pub device_fingerprint : Device → String
  unfolding device_fingerprint_payload
  device_fingerprint d = env.sha256 (env.fingerprint_text (device_fingerprint_payload d))
