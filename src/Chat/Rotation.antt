-- ===== src/Chat/Rotation.antt =====
-- Which key a message takes after an older message was read (rawConversationKey,
-- conversationKeyForDevices).
use mathlib.Core.Path.{subst}
use elektrine.Base.{
  Option, ◌+◌, ◌≡◌, refl, sym, ap, ◌∙◌, String, true, false, none, some, List, [], truthy, eq_refl,
  same_number,
}
use elektrine.Base.Effects.{ok, run_with-eq-ok, eq_of_ok}
use elektrine.Chat.Types.{Device, Bytes, Payload, Message, Env}
use elektrine.Chat.Store.{Chat, put, load_secure_json}
use elektrine.Chat.Devices.{devices_hash}
use elektrine.Chat.Keys.{
  or_throw, ConversationKey, conversation_key_for_devices, load_raw_conversation_key,
}
use elektrine.Chat.Send.{packages_for, message_of, encrypt_with, encrypt_message}
use elektrine.Chat.Send.Parts.{encrypt_message-Parts, OnlyTrust, trusting-OnlyTrust}
use elektrine.Base.Effects.{ok-inj}
use elektrine.Chat.Receive.{wrapped, inline_key_package_for_device, raw_conversation_key}

-- A key that the browser keeps, and takes for sent to the devices of the conversation.
pub record TakenForSent (env : Env) (key_uid : String) (raw_key : Bytes) (s : Chat) : Type 0 where
  pub active :
      s.active s.conversation_id
      ≡ put (record {
        key_uid = key_uid;
        devices_hash = devices_hash env s.devices;
        packages_sent_hash = some (devices_hash env s.devices);
      })
  pub cached : s.raw_key_cache s.conversation_id key_uid ≡ some raw_key

TakenForSent-key :
    (env : Env) (key_uid : String) (raw_key : Bytes) (s : Chat)
    → TakenForSent env key_uid raw_key s
    → truthy key_uid ≡ true
    → (conversation_key_for_devices env s.devices s).0
      ≡ ok (record {
        key_uid = key_uid;
        raw_key = raw_key;
        packages_needed = false;
        hash = devices_hash env s.devices;
      })
unfolding conversation_key_for_devices
TakenForSent-key env key_uid raw_key s taken full =
    let hash = devices_hash env s.devices in
    rw taken.active (
      rw (load_secure_json, full, eq_refl hash)
        (rw (load_raw_conversation_key, taken.cached) (rw (eq_refl hash) refl)))

raw_conversation_key-TakenForSent :
    (env : Env) (p : Payload) (encrypted : String) (raw_key : Bytes) (s : Chat)
    → s.raw_key_cache s.conversation_id p.key_uid ≡ none
    → (s.raw_keys s.conversation_id p.key_uid).secure ≡ none
    → (s.raw_keys s.conversation_id p.key_uid).local ≡ none
    → s.unavailable s.conversation_id p.key_uid ≡ false
    → inline_key_package_for_device p s.device.device_id ≡ none
    → env.rsa_decrypt s.device.private_key encrypted ≡ some raw_key
    → TakenForSent env p.key_uid raw_key
        (raw_conversation_key env s.conversation_id p.key_uid p (wrapped encrypted) s).1
unfolding raw_conversation_key
raw_conversation_key-TakenForSent env p encrypted raw_key s c se l u i o =
    rw (c, se, l, u, i, o)
      (record {
        active = rw (same_number s.conversation_id) refl;
        cached = rw (same_number s.conversation_id, eq_refl p.key_uid) refl;
      })

TakenForSent-trust :
    (env : Env) (key_uid : String) (raw_key : Bytes) (s t : Chat)
    → OnlyTrust s t
    → TakenForSent env key_uid raw_key s
    → (TakenForSent env key_uid raw_key t) × (t.devices ≡ s.devices)
TakenForSent-trust env key_uid raw_key s t same taken =
    rw same (record { active = taken.active; cached = taken.cached }, refl)

no_packages :
    (env : Env) (k : ConversationKey) (devices : List Device) (s : Chat)
    → k.packages_needed ≡ false
    → packages_for env k devices s ≡ (ok [], s)
unfolding packages_for
no_packages env k devices s h = rw h refl

-- A message under a key that carries no key for a device, neither beside its payload nor in it.
pub record Unsent (env : Env) (key_uid : String) (raw_key : Bytes) (content : String) (m : Message)
    : Type 0 where
  pub uid : m.key_uid ≡ key_uid
  pub payload_uid : m.encrypted_payload.key_uid ≡ key_uid
  pub no_packages : m.key_packages ≡ []
  pub no_local : m.encrypted_payload.local_key_packages ≡ []
  pub no_others : m.encrypted_payload.key_packages ≡ []
  pub no_federated : m.encrypted_payload.federated_key_packages ≡ []
  pub iv : Bytes
  pub sent_iv : m.encrypted_payload.iv ≡ env.bytes_to_base64 iv
  pub sealed : env.aes_encrypt raw_key iv content ≡ some m.encrypted_payload.ciphertext

or_throw-eq : (e : String) (o : Option String) (c : String) → (or_throw e o) ≡ ok c → o ≡ some c
or_throw-eq e none c h = cc
or_throw-eq e (some d) c h = ap some (ok-inj d c h)

Unsent-with :
    (env : Env) (k : ConversationKey) (devices : List Device) (content : String) (s t : Chat)
    (m : Message)
    → encrypt_with env k devices content s ≡ (ok m, t)
    → k.packages_needed ≡ false
    → Unsent env k.key_uid k.raw_key content m
unfolding encrypt_with message_of
Unsent-with env k devices content s t m e h =
    let iv = env.random_bytes 12 s.drawn in
    let drawn = record s { drawn = s.drawn + 1 } in
    let (c, closed, e') =
      run_with-eq-ok (or_throw "OperationError" (env.aes_encrypt k.raw_key iv content), drawn) _
        e in
    let e'' = rw (no_packages env k devices drawn h) at e' in
    let built : message_of k (env.bytes_to_base64 iv) c [] ≡ m = eq_of_ok _ m _ t e'' in
    record {
      uid = sym (ap (λ n. n.key_uid) built);
      payload_uid = sym (ap (λ n. n.encrypted_payload.key_uid) built);
      no_packages = sym (ap (λ n. n.key_packages) built);
      no_local = sym (ap (λ n. n.encrypted_payload.local_key_packages) built);
      no_others = sym (ap (λ n. n.encrypted_payload.key_packages) built);
      no_federated = sym (ap (λ n. n.encrypted_payload.federated_key_packages) built);
      iv = iv;
      sent_iv = sym (ap (λ n. n.encrypted_payload.iv) built);
      sealed =
          or_throw-eq "OperationError" (env.aes_encrypt k.raw_key iv content) c closed
          ∙ ap (λ n. some n.encrypted_payload.ciphertext) built;
    }

-- The browser reads a message of the selected conversation whose key it does not keep, did not give
-- up on and does not find in the message, and the server has the key wrapped for it. Then the next
-- message that is encrypted is sealed with that key too, however old it is and whatever key was in
-- use, and carries the key for no device, neither beside its payload nor in it.
pub old_key-reused :
    (env : Env) (p : Payload) (encrypted content : String) (raw_key : Bytes) (s t : Chat)
    (m : Message)
    → s.raw_key_cache s.conversation_id p.key_uid ≡ none
    → (s.raw_keys s.conversation_id p.key_uid).secure ≡ none
    → (s.raw_keys s.conversation_id p.key_uid).local ≡ none
    → s.unavailable s.conversation_id p.key_uid ≡ false
    → inline_key_package_for_device p s.device.device_id ≡ none
    → env.rsa_decrypt s.device.private_key encrypted ≡ some raw_key
    → truthy p.key_uid ≡ true
    → encrypt_message env content
        (raw_conversation_key env s.conversation_id p.key_uid p (wrapped encrypted) s).1
      ≡ (ok m, t)
    → Unsent env p.key_uid raw_key content m
old_key-reused env p encrypted content raw_key s t m c se l u i o full sent =
    let r = (raw_conversation_key env s.conversation_id p.key_uid p (wrapped encrypted) s).1 in
    let parts = encrypt_message-Parts env content r t m sent in
    let (taken, same) =
      TakenForSent-trust env p.key_uid raw_key r parts.trusting
        (trusting-OnlyTrust env r parts.trusting parts.passed)
        (raw_conversation_key-TakenForSent env p encrypted raw_key s c se l u i o) in
    let chosen =
      sym (ap (λ x. x.0) parts.chosen)
      ∙ ap (λ ds. (conversation_key_for_devices env ds parts.trusting).0) (sym same)
      ∙ TakenForSent-key env p.key_uid raw_key parts.trusting taken full in
    let key_is = ok-inj parts.key _ chosen in
    subst (λ k. Unsent env k.key_uid k.raw_key content m) key_is
      (Unsent-with env parts.key r.devices content parts.keyed t m parts.encrypted
        (ap (λ k. k.packages_needed) key_is))
