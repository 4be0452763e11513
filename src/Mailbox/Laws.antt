-- ===== src/Mailbox/Laws.antt =====
-- Unlocking a mailbox with a passphrase (unlockMailbox).
use elektrine.Base.{
  ◌+◌, ◌≡◌, refl, sym, ap, ◌∙◌, String, true, false, Option, some, ◌===◌, truthy, eq_refl, inl, inr,
}
use elektrine.Base.Effects.{ok, err, ok-inj, Result-cases, bind_result-eq-ok}
use elektrine.Mailbox.Types.{Bytes, CryptoKey, Payload, Env, Page}
use elektrine.Mailbox.Wrap.{
  verify_text, wrapped_payload, seal, wrap_bytes, unwrap_bytes, wrap_params, stable_json_context,
  key_wrap_aad_context,
}
use elektrine.Mailbox.Unlock.{
  dispatch_mailbox_event, get_stored_private_key, store_private_key, unwrap_mailbox_private_key,
  import_and_store_private_key, unlock_mailbox,
}

-- Base64 and AES-GCM give back what they were given, and UTF-8 the fixed text.
pub record Restores (env : Env) : Type 0 where
  pub codec : (bytes : Bytes) → env.atob (env.btoa bytes) ≡ ok bytes
  pub cipher :
      (key : CryptoKey) (iv bytes ciphertext : Bytes) (aad : Option String)
      → env.encrypt key iv aad bytes ≡ ok ciphertext
      → env.decrypt key iv aad ciphertext ≡ ok bytes
  pub texts : env.decode (env.encode verify_text) ≡ verify_text

abbrev pub unlocked_page : String → CryptoKey → Page → Page
unlocked_page id key page =
    dispatch_mailbox_event "elektrine:private-mailbox-unlocked" id (store_private_key id key page)

pub unlocked_page-key :
    (id : String) (key : CryptoKey) (page : Page)
    → truthy id ≡ true
    → get_stored_private_key id (unlocked_page id key page) ≡ some key
unlocked_page-key id key page h = rw h (rw (eq_refl id) refl)

module _ (env : Env) (restores : Restores env) where
  wrapped_payload-unwrap :
      (salt iv bytes ciphertext : Bytes) (passphrase : String) (mode : Option String)
      (kind : String) (key : CryptoKey)
      → env.scrypt passphrase salt (wrapped_payload env salt iv mode kind ciphertext).params
        ≡ ok key
      → env.encrypt key iv
          (some (stable_json_context env (some (key_wrap_aad_context mode kind))))
          bytes
        ≡ ok ciphertext
      → unwrap_bytes env (wrapped_payload env salt iv mode kind ciphertext) passphrase ≡ ok bytes
  unfolding unwrap_bytes wrap_params
  wrapped_payload-unwrap salt iv bytes ciphertext passphrase mode kind key e f =
      rw (restores.codec salt) (
        rw (restores.codec iv) (
          rw (restores.codec ciphertext) (
            rw e (
              restores.cipher key iv bytes ciphertext
                (some (stable_json_context env (some (key_wrap_aad_context mode kind)))) f))))

  seal-unwrap :
      (salt iv bytes : Bytes) (passphrase : String) (mode : Option String) (kind : String)
      (w : Payload)
      → seal env salt iv bytes passphrase mode kind ≡ ok w
      → unwrap_bytes env w passphrase ≡ ok bytes
  seal-unwrap salt iv bytes passphrase mode kind w h =
      let (key, e, rest) = bind_result-eq-ok _ _ h in
      let (ciphertext, f, made) = bind_result-eq-ok _ _ rest in
      ap (λ x. unwrap_bytes env x passphrase)
        (sym (ok-inj (wrapped_payload env salt iv mode kind ciphertext) w made))
      ∙ wrapped_payload-unwrap salt iv bytes ciphertext passphrase mode kind key e f

  -- What was wrapped is unwrapped with the same passphrase.
  wrap_bytes-unwrap :
      (bytes : Bytes) (passphrase : String) (mode : Option String) (kind : String) (s : Page)
      (w : Payload)
      → (wrap_bytes env bytes passphrase mode kind s).0 ≡ ok w
      → unwrap_bytes env w passphrase ≡ ok bytes
  unfolding wrap_bytes
  wrap_bytes-unwrap bytes passphrase mode kind s w h =
      seal-unwrap (env.random s.draws 16) (env.random (s.draws + 1) 12) bytes passphrase mode kind w
        h

  unwrap_mailbox_private_key-ok :
      (passphrase : String) (bytes : Bytes) (w v : Payload)
      → unwrap_bytes env w passphrase ≡ ok bytes
      → unwrap_bytes env v passphrase ≡ ok (env.encode verify_text)
      → unwrap_mailbox_private_key env w v passphrase ≡ ok bytes
  unfolding unwrap_mailbox_private_key
  unwrap_mailbox_private_key-ok passphrase bytes w v e f = rw f (rw (restores.texts) e)

  pub import_and_store-ok :
      (id : String) (bytes : Bytes) (key : CryptoKey) (page : Page)
      → env.import_private_key bytes ≡ ok key
      → import_and_store_private_key env id bytes page ≡ (ok tt, unlocked_page id key page)
  unfolding import_and_store_private_key
  import_and_store-ok id bytes key page e = rw e refl

  unlock_mailbox-ok :
      (id passphrase : String) (bytes : Bytes) (w v : Payload) (key : CryptoKey) (page : Page)
      → unwrap_mailbox_private_key env w v passphrase ≡ ok bytes
      → env.import_private_key bytes ≡ ok key
      → unlock_mailbox env id w v passphrase page ≡ (ok tt, unlocked_page id key page)
  unfolding unlock_mailbox
  unlock_mailbox-ok id passphrase bytes w v key page e f =
      rw e (import_and_store-ok id bytes key page f)

  -- If a private key and the fixed text were wrapped with one passphrase, then unlocking the mailbox
  -- with that passphrase succeeds on any page, and the page has the key that is imported.
  pub wrap_bytes-unlock_mailbox :
      (id passphrase : String) (bytes : Bytes) (mode : Option String) (s t page : Page)
      (w v : Payload) (key : CryptoKey)
      → (wrap_bytes env bytes passphrase mode "private_key" s).0 ≡ ok w
      → (wrap_bytes env (env.encode verify_text) passphrase mode "verifier" t).0 ≡ ok v
      → env.import_private_key bytes ≡ ok key
      → truthy id ≡ true
      → ((unlock_mailbox env id w v passphrase page).0 ≡ ok tt)
        × (get_stored_private_key id (unlock_mailbox env id w v passphrase page).1 ≡ some key)
  wrap_bytes-unlock_mailbox id passphrase bytes mode s t page w v key e f g h =
      let opened =
        unwrap_mailbox_private_key-ok passphrase bytes w v
          (wrap_bytes-unwrap bytes passphrase mode "private_key" s w e)
          (wrap_bytes-unwrap (env.encode verify_text) passphrase mode "verifier" t v f) in
      let unlocked = unlock_mailbox-ok id passphrase bytes w v key page opened g in
      (
        ap (λ r. r.0) unlocked,
        ap (λ r. get_stored_private_key id r.1) unlocked ∙ unlocked_page-key id key page h,
      )

-- Unless the verifier opens to the fixed text with the passphrase, unlocking throws, and the page
-- stays as it is.
pub unlock_mailbox-refused :
    (env : Env) (id passphrase : String) (w v : Payload) (page : Page)
    → ((bytes : Bytes)
        → unwrap_bytes env v passphrase ≡ ok bytes
        → (env.decode bytes === verify_text) ≡ false)
    → (e : String) × (unlock_mailbox env id w v passphrase page ≡ (err e, page))
unfolding unlock_mailbox unwrap_mailbox_private_key
unlock_mailbox-refused env id passphrase w v page wrong =
    elim (Result-cases (unwrap_bytes env v passphrase)) [
      | inr (e, h) ↦ (e, rw h refl)
      | inl (bytes, h) ↦ ("invalid-passphrase", rw h (rw (wrong bytes h) refl))
    ]
