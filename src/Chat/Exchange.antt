-- ===== src/Chat/Exchange.antt =====
-- A message from one browser to another.
pub mod Sealing
pub mod Opening
use elektrine.Base.{
  ℕ, ◌≡◌, sym, ap, ◌∙◌, String, none, some, List, [], ◌++◌, ◌===◌, is_some, find, keep_if,
}
use elektrine.Base.Effects.{ok}
use elektrine.Chat.Types.{Device, Bytes, Message, Env}
use elektrine.Chat.Store.{Chat}
use elektrine.Chat.Devices.{stable_devices}
use elektrine.Chat.Keys.{ConversationKey}
use elektrine.Chat.Send.{rsa_key_text, wrap_conversation_key, message_of, encrypt_message}
use elektrine.Chat.Send.Parts.{encrypt_message-Parts, trusting-OnlyTrust}
use elektrine.Chat.Receive.{
  KeyReply, plaintext, inline_key_package_for_device, decrypt_message_element,
}
use elektrine.Chat.Exchange.Sealing.{
  Sealed, conversation_key-prepared, encrypt_with-Sealed, find-wrap_all, key_package-encrypted,
}
use elektrine.Chat.Exchange.Opening.{
  Opens, IsNew, find-append, raw_conversation_key-inline, decrypt_message_element-shown,
}

Sealed-shown :
    (env : Env) (k : ConversationKey) (devices : List Device) (content key : String) (iv : Bytes)
    (m : Message) (d : Device) (r : Chat) (conversation : ℕ) (reply : KeyReply)
    → Sealed env k devices content iv m
    → find
        (λ c. c.device_id === r.device.device_id)
        (keep_if (λ c. is_some c.user_id) (stable_devices env devices))
      ≡ some d
    → rsa_key_text d.public_key ≡ ok key
    → Opens env key r.device.private_key
    → IsNew r conversation m.encrypted_payload
    → (decrypt_message_element env conversation m.encrypted_payload reply r).0 ≡ plaintext content
unfolding message_of wrap_conversation_key inline_key_package_for_device
Sealed-shown env k devices content key iv m d r conversation reply sealed f e opens new =
    let (p, found, made) =
      find-wrap_all env k.raw_key r.device.device_id (stable_devices env devices) sealed.packages d
        sealed.wrapped f in
    let (opened, full) =
      opens.unwraps k.raw_key p.encrypted_key
        (key_package-encrypted env k.raw_key d p key made e) in
    let text = opens.decrypts k.raw_key iv content sealed.ciphertext sealed.closed in
    let q = m.encrypted_payload in
    let as_built = ap (λ n. n.encrypted_payload) sealed.built in
    let inline : inline_key_package_for_device q r.device.device_id ≡ some p =
      ap (λ x. inline_key_package_for_device x r.device.device_id) as_built
      ∙ find-append (λ x. x.device_id === r.device.device_id)
          (keep_if (λ x. is_some x.user_id) sealed.packages ++ []) _ p
          (find-append (λ x. x.device_id === r.device.device_id)
            (keep_if (λ x. is_some x.user_id) sealed.packages) [] p found) in
    decrypt_message_element-shown env conversation q reply r k.raw_key iv content new.not_sent
      (raw_conversation_key-inline env r conversation q reply p k.raw_key new inline full opened)
      (ap (λ x. env.base64_to_bytes x.iv) as_built ∙ opens.decodes iv)
      (ap (λ x. env.aes_decrypt k.raw_key iv x.ciphertext) as_built ∙ text)

-- If the sender had to send the key along and had not prepared it, the receiver's browser is one of
-- the local devices of the conversation, the first with its identifier, and the receiver has not
-- met the key: then the receiver is shown what the sender wrote, whatever the server replies.
pub decrypt-encrypt :
    (env : Env) (content h key : String) (s t : Chat) (m : Message) (d : Device) (r : Chat)
    (conversation : ℕ) (reply : KeyReply)
    → encrypt_message env content s ≡ (ok m, t)
    → s.prepared ≡ none
    → m.devices_hash ≡ some h
    → find
        (λ c. c.device_id === r.device.device_id)
        (keep_if (λ c. is_some c.user_id) (stable_devices env s.devices))
      ≡ some d
    → rsa_key_text d.public_key ≡ ok key
    → Opens env key r.device.private_key
    → IsNew r conversation m.encrypted_payload
    → (decrypt_message_element env conversation m.encrypted_payload reply r).0 ≡ plaintext content
decrypt-encrypt env content h key s t m d r conversation reply sent fresh needed f e opens new =
    let parts = encrypt_message-Parts env content s t m sent in
    let kept : parts.keyed.prepared ≡ none =
      ap (λ u. u.1.prepared) (sym parts.chosen)
      ∙ conversation_key-prepared env s.devices parts.trusting
      ∙ ap (λ u. u.prepared) (trusting-OnlyTrust env s parts.trusting parts.passed)
      ∙ fresh in
    Sealed-shown env parts.key s.devices content key (env.random_bytes 12 parts.keyed.drawn) m d r
      conversation reply
      (encrypt_with-Sealed env parts.key s.devices content h parts.keyed t m parts.encrypted kept
        needed)
      f e opens new
