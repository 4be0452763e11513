-- ===== src/Chat/Types.antt =====
-- The data of the encrypted chat, and the platform under it.
use elektrine.Base.{ℕ, String, Bool, Option, List}

-- A public key as it stands in a device: absent, the bare text, or the text with its algorithm.
-- A payload has a key.
pub record KeyPayload : Type 0 where
  pub version : ℕ
  pub algorithm : String
  pub key : String

pub data KeyField : Type 0 where
  no_key : KeyField
  bare : String → KeyField
  payload : KeyPayload → KeyField

-- A device of a member, as the server lists it, or as `stableDevices` writes it. An absent
-- `user_id` is `none`; the signature is the text in `device_signature`.
pub record Device : Type 0 where
  pub user_id : Option ℕ
  pub recipient_handle : Option String
  pub origin_domain : Option String
  pub device_id : String
  pub public_key : KeyField
  pub key_algorithm : Option String
  pub fingerprint : Option String
  pub signing_public_key : KeyField
  pub device_signature : Option String

-- `deviceFingerprintPayload`
pub record FingerprintPayload : Type 0 where
  pub device_id : String
  pub key_algorithm : String
  pub public_key : Option KeyPayload
  pub signing_public_key : Option KeyPayload

abbrev pub Bytes : Type 0
Bytes = List ℕ

-- A key of a conversation, wrapped for one device; `encrypted_key` is that of `wrapped_key`.
pub record KeyPackage : Type 0 where
  pub user_id : Option ℕ
  pub recipient_handle : Option String
  pub origin_domain : Option String
  pub device_id : String
  pub encrypted_key : String

-- `encrypted_payload`; absent packages are an empty list.
pub record Payload : Type 0 where
  pub key_uid : String
  pub iv : String
  pub ciphertext : String
  pub local_key_packages : List KeyPackage
  pub key_packages : List KeyPackage
  pub federated_key_packages : List KeyPackage

-- What `encryptMessage` answers, without the search index.
pub record Message : Type 0 where
  pub key_uid : String
  pub devices_hash : Option String
  pub encrypted_payload : Payload
  pub key_packages : List KeyPackage

-- The platform. `none` is a promise that is rejected.
pub record Env : Type 0 where
  -- `JSON.stringify` of `stableDevices`' list, `stableJson` of the payload of a fingerprint and of
  -- that with the fingerprint itself
  pub stringify_devices : List Device → String
  pub fingerprint_text : FingerprintPayload → String
  pub signature_text : FingerprintPayload → String → String
  -- `sha256Base64Url`, `String(n)`, and whether `localeCompare` is negative
  pub sha256 : String → String
  pub decimal : ℕ → String
  pub locale_before : String → String → Bool
  -- whether a signature is valid, by the key's text
  pub verify : (key signature text : String) → Option Bool
  -- RSA-OAEP with a public key's text, to base64, and with a private key, from base64
  pub rsa_encrypt : (key : String) → Bytes → Option String
  pub rsa_decrypt : (private_key encrypted : String) → Option Bytes
  -- AES-GCM and its base64
  pub aes_encrypt : (key iv : Bytes) → String → Option String
  pub aes_decrypt : (key iv : Bytes) → String → Option String
  pub bytes_to_base64 : Bytes → String
  pub base64_to_bytes : String → Option Bytes
  -- the n-th identifier and the n-th random bytes of a length
  pub random_id : ℕ → String
  pub random_bytes : (length : ℕ) → ℕ → Bytes
