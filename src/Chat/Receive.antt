-- ===== src/Chat/Receive.antt =====
-- chat_e2ee_hook.js: the key of a message that is shown, and its text.
use elektrine.Base.{
  ℕ, String, true, Option, none, some, ◌++◌, if◌then◌else◌, ◌===◌, truthy, text_of, find,
}
use elektrine.Base.Effects.{Result, ok, err, pure, throw, lift, get, ◌>>=◌, ◌>>◌}
use elektrine.Chat.Types.{Bytes, KeyPackage, Payload, Env}
use elektrine.Chat.Store.{M, Chat, LocalDevice, at_key}
use elektrine.Chat.Devices.{devices_hash}
use elektrine.Chat.Keys.{
  or_throw, load_raw_conversation_key, store_raw_conversation_key, store_active_conversation_key,
}
use elektrine.Chat.Plaintexts.{sent_plaintext_for_payload}

-- The server's reply to `chat_e2ee_key`: a wrapped key, or an error's code.
pub data KeyReply : Type 0 where
  wrapped : String → KeyReply
  refused : Option String → KeyReply

-- `inlineKeyPackageForDevice`
unfoldable pub inline_key_package_for_device : Payload → String → Option KeyPackage
inline_key_package_for_device p device_id =
    find (λ k. k.device_id === device_id)
      ((p.local_key_packages ++ p.key_packages) ++ p.federated_key_packages)

pub data Shown : Type 0 where
  plaintext : String → Shown
  failed : Shown

abbrev key_not_found : String
key_not_found = "key_not_found"

module _ (env : Env) where
  unfoldable pub decrypt_wrapped_conversation_key : LocalDevice → String → Result Bytes
  decrypt_wrapped_conversation_key device encrypted =
      or_throw "OperationError" (env.rsa_decrypt device.private_key encrypted)

  abbrev pub store_inline : ℕ → String → LocalDevice → String → M Bytes
  store_inline conversation key_uid device encrypted = do
    raw_key ← lift (decrypt_wrapped_conversation_key device encrypted)
    store_raw_conversation_key conversation key_uid raw_key
    pure raw_key

  abbrev pub from_server : ℕ → String → LocalDevice → KeyReply → M Bytes
  from_server conversation key_uid device (refused code) =
      throw (elim code [ none ↦ "Wrapped key not found" | some e ↦ e ])
  from_server conversation key_uid device (wrapped encrypted) = do
    raw_key ← lift (decrypt_wrapped_conversation_key device encrypted)
    store_raw_conversation_key conversation key_uid raw_key
    s ← get
    store_active_conversation_key conversation key_uid (devices_hash env s.devices)
        (some (devices_hash env s.devices))
    pure raw_key

  abbrev inline_key : Option KeyPackage → String
  inline_key none = ""
  inline_key (some p) = p.encrypted_key

  abbrev pub request_key : ℕ → String → String → KeyReply → M Bytes
  request_key conversation key_uid inline reply = do
    s ← get
    if truthy inline
        then store_inline conversation key_uid s.device inline
        else from_server conversation key_uid s.device reply

  -- The `catch` of the request: a key that is not there is not asked for again.
  abbrev pub note_unavailable : ℕ → String → Result Bytes × Chat → Result Bytes × Chat
  note_unavailable conversation key_uid (ok raw_key, s) = (ok raw_key, s)
  note_unavailable conversation key_uid (err e, s) = (
    err e,
    if e === key_not_found
        then record s { unavailable = at_key conversation key_uid true s.unavailable }
        else s,
  )

  abbrev pub or_request : ℕ → String → Payload → KeyReply → Option Bytes → M Bytes
  or_request conversation key_uid p reply (some raw_key) s = (ok raw_key, s)
  or_request conversation key_uid p reply none s =
      if s.unavailable conversation key_uid
      then (err key_not_found, s)
      else note_unavailable conversation key_uid (
          request_key conversation key_uid
            (inline_key (inline_key_package_for_device p s.device.device_id)) reply s)

  unfoldable pub raw_conversation_key : ℕ → String → Payload → KeyReply → M Bytes
  unfolding load_raw_conversation_key store_raw_conversation_key store_active_conversation_key
      inline_key_package_for_device decrypt_wrapped_conversation_key
  raw_conversation_key conversation key_uid p reply = do
    stored ← load_raw_conversation_key env conversation key_uid
    or_request conversation key_uid p reply stored

  abbrev pub open_payload : Payload → Bytes → Result String
  open_payload p raw_key = elim (env.base64_to_bytes p.iv) [
    | none ↦ err "InvalidCharacterError"
    | some iv ↦ or_throw "OperationError" (env.aes_decrypt raw_key iv p.ciphertext)
  ]

  abbrev pub show : Result String × Chat → Shown × Chat
  show (ok text, s) = (plaintext text, s)
  show (err e, s) = (failed, s)

  abbrev pub decrypt_payload : ℕ → Payload → KeyReply → M String
  decrypt_payload conversation p reply = do
    raw_key ← raw_conversation_key conversation p.key_uid p reply
    lift (open_payload p raw_key)

  abbrev pub or_decrypt : ℕ → Payload → KeyReply → String → Chat → Shown × Chat
  or_decrypt conversation p reply sent s =
      if truthy sent then (plaintext sent, s) else show (decrypt_payload conversation p reply s)

  -- Of a message element that has a payload with a key in a conversation.
  unfoldable pub decrypt_message_element : ℕ → Payload → KeyReply → Chat → Shown × Chat
  decrypt_message_element conversation p reply s =
      or_decrypt conversation p reply (text_of (sent_plaintext_for_payload p s)) s
