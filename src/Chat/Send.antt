-- ===== src/Chat/Send.antt =====
-- chat_e2ee_hook.js: encrypting a message for the devices of a conversation, and sending it.
-- A submit runs to the server's reply before anything else happens, so no key is being prepared.
pub mod Parts
use elektrine.Base.{
  ◌+◌, String, Bool, ◌&&◌, Option, none, some, List, [], ◌∷◌, if◌then◌else◌, ◌===◌, truthy, text_of,
  is_some, keep_if,
}
use elektrine.Base.Effects.{Result, ok, err, pure, lift, get, modify, bind_result, ◌>>=◌, ◌>>◌}
use elektrine.Chat.Types.{KeyField, payload, Device, Bytes, KeyPackage, Message, Env}
use elektrine.Chat.Store.{M, PreparedKey}
use elektrine.Chat.Devices.{stable_devices}
use elektrine.Chat.Trust.{ensure_devices_trusted}
use elektrine.Chat.Keys.{or_throw, ConversationKey, conversation_key_for_devices}

-- `importRsaPublicKey`: the text of a key that can be imported.
unfoldable pub rsa_key_text : KeyField → Result String
rsa_key_text (payload p) =
    if truthy p.key && p.algorithm === "RSA-OAEP-SHA256"
    then ok p.key
    else err "Invalid chat public key"
rsa_key_text _ = err "Invalid chat public key"

abbrev is_local : KeyPackage → Bool
is_local p = is_some p.user_id

abbrev is_federated : KeyPackage → Bool
is_federated p = truthy (text_of p.recipient_handle)

unfoldable pub message_of : ConversationKey → (iv ciphertext : String) → List KeyPackage → Message
message_of k iv ciphertext packages = record {
  key_uid = k.key_uid;
  devices_hash = if k.packages_needed then some k.hash else none;
  encrypted_payload = record {
    key_uid = k.key_uid;
    iv = iv;
    ciphertext = ciphertext;
    local_key_packages = keep_if is_local packages;
    key_packages = [];
    federated_key_packages = keep_if is_federated packages;
  };
  key_packages = keep_if is_local packages;
}

abbrev is_prepared : ConversationKey → PreparedKey → Bool
is_prepared k p = p.key_uid === k.key_uid && p.hash === k.hash

abbrev pub prepared_packages : ConversationKey → Option PreparedKey → Option (List KeyPackage)
prepared_packages k none = none
prepared_packages k (some p) = if is_prepared k p then some p.key_packages else none

module _ (env : Env) where
  unfoldable pub key_package : Bytes → Device → Result KeyPackage
  unfolding rsa_key_text
  key_package raw_key d = bind_result (rsa_key_text d.public_key) λ key.
      bind_result (or_throw "OperationError" (env.rsa_encrypt key raw_key)) λ encrypted.
        ok (record {
          user_id = d.user_id;
          recipient_handle = d.recipient_handle;
          origin_domain = d.origin_domain;
          device_id = d.device_id;
          encrypted_key = encrypted;
        })

  unfoldable pub wrap_all : Bytes → List Device → Result (List KeyPackage)
  wrap_all raw_key [] = ok []
  wrap_all raw_key (d ∷ ds) =
      bind_result (key_package raw_key d) λ p. bind_result (wrap_all raw_key ds) λ ps. ok (p ∷ ps)

  unfoldable pub wrap_conversation_key : Bytes → List Device → Result (List KeyPackage)
  unfolding wrap_all
  wrap_conversation_key raw_key devices = wrap_all raw_key (stable_devices env devices)

  abbrev use_packages :
      ConversationKey → List Device → Option (List KeyPackage) → M (List KeyPackage)
  use_packages k devices (some packages) = pure packages
  use_packages k devices none = do
    packages ← lift (wrap_conversation_key k.raw_key devices)
    modify (λ s. record s {
      prepared = some (record { key_uid = k.key_uid; hash = k.hash; key_packages = packages });
    })
    pure packages

  unfoldable pub packages_for : ConversationKey → List Device → M (List KeyPackage)
  unfolding wrap_conversation_key
  packages_for k devices = do
    s ← get
    if k.packages_needed then use_packages k devices (prepared_packages k s.prepared) else pure []

  -- With the key that was chosen.
  unfoldable pub encrypt_with : ConversationKey → List Device → String → M Message
  unfolding packages_for message_of
  encrypt_with k devices content = do
    s ← get
    let iv = env.random_bytes 12 s.drawn
    modify (λ t. record t { drawn = t.drawn + 1 })
    ciphertext ← lift (or_throw "OperationError" (env.aes_encrypt k.raw_key iv content))
    packages ← packages_for k devices
    pure (message_of k (env.bytes_to_base64 iv) ciphertext packages)

  unfoldable pub encrypt_message : String → M Message
  unfolding encrypt_with
  encrypt_message content = do
    s ← get
    ensure_devices_trusted env s.devices
    k ← conversation_key_for_devices env s.devices
    encrypt_with k s.devices content

  -- `prepareConversationKeyPackages`, in a ready chat.
  abbrev prepare_with : ConversationKey → List Device → M (Unit {0})
  prepare_with k devices =
      if k.packages_needed
      then (do packages ← packages_for k devices; pure tt)
      else modify (λ s. record s {
        prepared = some (record { key_uid = k.key_uid; hash = k.hash; key_packages = [] });
      })

  unfoldable pub prepare_conversation_key_packages : M (Unit {0})
  unfolding packages_for
  prepare_conversation_key_packages = do
    s ← get
    ensure_devices_trusted env s.devices
    k ← conversation_key_for_devices env s.devices
    prepare_with k s.devices
