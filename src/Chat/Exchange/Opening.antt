-- ===== src/Chat/Exchange/Opening.antt =====
-- What a browser that has not met a key makes of a payload (rawConversationKey, decryptMessageElement).
use elektrine.Base.{
  ℕ, ◌≡◌, refl, ap, ◌∙◌, String, Bool, true, false, none, some, List, [], ◌∷◌, ◌++◌, truthy, find,
  inl, inr, Bool-cases,
}
use elektrine.Base.Effects.{Result, ok, err, run_with, lift}
use elektrine.Chat.Types.{Bytes, KeyPackage, Payload, Env}
use elektrine.Chat.Store.{Chat}
use elektrine.Chat.Receive.{
  KeyReply, Shown, plaintext, failed, inline_key_package_for_device, raw_conversation_key,
  decrypt_message_element, show, open_payload,
}
use elektrine.Chat.Plaintexts.{sent_plaintext_for_payload}
use elektrine.Base.Effects.{ok-inj}

-- Whoever has the private key of a public key reads what was wrapped for it, and whoever has a key
-- and an initialisation vector what was encrypted with them.
pub record Opens (env : Env) (public_key private_key : String) : Type 0 where
  pub unwraps :
      (raw_key : Bytes) (c : String)
      → env.rsa_encrypt public_key raw_key ≡ some c
      → (env.rsa_decrypt private_key c ≡ some raw_key) × (truthy c ≡ true)
  pub decrypts :
      (raw_key iv : Bytes) (content c : String)
      → env.aes_encrypt raw_key iv content ≡ some c
      → env.aes_decrypt raw_key iv c ≡ some content
  pub decodes : (b : Bytes) → env.base64_to_bytes (env.bytes_to_base64 b) ≡ some b

-- A browser that has not met a key: it neither keeps it, nor gave up on it, nor sent the message.
pub record IsNew (r : Chat) (conversation : ℕ) (p : Payload) : Type 0 where
  pub not_cached : r.raw_key_cache conversation p.key_uid ≡ none
  pub not_secure : (r.raw_keys conversation p.key_uid).secure ≡ none
  pub not_local : (r.raw_keys conversation p.key_uid).local ≡ none
  pub not_given_up : r.unavailable conversation p.key_uid ≡ false
  pub not_sent : sent_plaintext_for_payload p r ≡ none

pub find-append :
    (f : KeyPackage → Bool) (xs ys : List KeyPackage) (p : KeyPackage)
    → find f xs ≡ some p
    → find f (xs ++ ys) ≡ some p
find-append f [] ys p h = cc
find-append f (x ∷ xs) ys p h = elim (Bool-cases (f x)) [
  | inl e ↦ rw e (rw e at h)
  | inr e ↦ rw e (find-append f xs ys p (rw e at h))
]

-- The key that stands in a payload for this browser is unwrapped and kept.
pub raw_conversation_key-inline :
    (env : Env) (r : Chat) (conversation : ℕ) (p : Payload) (reply : KeyReply) (k : KeyPackage)
    (raw_key : Bytes)
    → IsNew r conversation p
    → inline_key_package_for_device p r.device.device_id ≡ some k
    → truthy k.encrypted_key ≡ true
    → env.rsa_decrypt r.device.private_key k.encrypted_key ≡ some raw_key
    → (raw_conversation_key env conversation p.key_uid p reply r).0 ≡ ok raw_key
unfolding raw_conversation_key
raw_conversation_key-inline env r conversation p reply k raw_key new found full opened =
    rw (new.not_cached, new.not_secure, new.not_local, new.not_given_up, found, full, opened) refl

open_payload-ok :
    (env : Env) (q : Payload) (raw_key iv : Bytes) (content : String)
    → env.base64_to_bytes q.iv ≡ some iv
    → env.aes_decrypt raw_key iv q.ciphertext ≡ some content
    → open_payload env q raw_key ≡ ok content
open_payload-ok env q raw_key iv content i c = rw (open_payload, i, c) refl

show-opened :
    (env : Env) (q : Payload) (raw_key iv : Bytes) (content : String) (x : Result Bytes × Chat)
    → x.0 ≡ ok raw_key
    → env.base64_to_bytes q.iv ≡ some iv
    → env.aes_decrypt raw_key iv q.ciphertext ≡ some content
    → (show env (run_with x λ a. lift (open_payload env q a))).0 ≡ plaintext content
show-opened env q raw_key iv content (ok a, s) h i c =
    ap (λ o. (show env (o, s)).0)
      (ap (open_payload env q) (ok-inj a raw_key h) ∙ open_payload-ok env q raw_key iv content i c)
show-opened env q raw_key iv content (err e, s) h i c = absurd_case h
  where
    absurd_case :
        ◌≡◌ {A = Result Bytes} (err e) (ok raw_key) → ◌≡◌ {A = Shown} failed (plaintext content)
    absurd_case g = cc

pub decrypt_message_element-shown :
    (env : Env) (conversation : ℕ) (q : Payload) (reply : KeyReply) (r : Chat) (raw_key iv : Bytes)
    (content : String)
    → sent_plaintext_for_payload q r ≡ none
    → (raw_conversation_key env conversation q.key_uid q reply r).0 ≡ ok raw_key
    → env.base64_to_bytes q.iv ≡ some iv
    → env.aes_decrypt raw_key iv q.ciphertext ≡ some content
    → (decrypt_message_element env conversation q reply r).0 ≡ plaintext content
unfolding decrypt_message_element
decrypt_message_element-shown env conversation q reply r raw_key iv content unsent h i c =
    rw unsent (
      show-opened env q raw_key iv content
        (raw_conversation_key env conversation q.key_uid q reply r) h i c)
