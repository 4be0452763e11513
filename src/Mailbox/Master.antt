-- ===== src/Mailbox/Master.antt =====
-- The mailbox under the key of the vault's session (masterEmailKey and what uses it).
use elektrine.Base.{
  ℕ, ◌≡◌, refl, sym, ap, ◌∙◌, String, some, none, true, List, [], ◌∷◌, ◌++◌, truthy,
}
use elektrine.Base.Effects.{Result, ok, err, ok-inj, bind_result-eq-ok}
use elektrine.Vault.Types.{encryption, Outcome, key, rejected, failed, Answer, Vault}
use elektrine.Vault.Session.{feature_key, settle, run, derive}
use elektrine.Vault.Keys.{IsCurrent, feature_key-settle}
use elektrine.Vault
use elektrine.Mailbox.Types.{Bytes, CryptoKey, MasterPayload, Env, Page}
use elektrine.Mailbox.Wrap.{
  verify_text, master_payload, master_aad_context, seal_with_master, wrap_bytes_with_master_key,
  unwrap_bytes_with_master_key, wrap_params, stable_json_context,
}
use elektrine.Mailbox.Unlock.{get_stored_private_key, unlock_mailbox_with_master}
use elektrine.Mailbox.Laws.{Restores, unlocked_page, unlocked_page-key, import_and_store-ok}

-- A key that is `undefined` makes AES-GCM throw.
abbrev result_of : Outcome → Result CryptoKey
result_of (key (some k)) = ok k
result_of (key none) = err "TypeError"
result_of (rejected message) = err message
result_of failed = err "OperationError"

abbrev last_result : List Answer → Result CryptoKey
last_result [] = err "pending"
last_result (a ∷ []) = result_of a.outcome
last_result (a ∷ b ∷ rest) = last_result (b ∷ rest)

-- `featureKey("email")`, while the session of the vault is idle and nothing else happens to it.
unfoldable pub master_email_key : Vault.Types.Env → Vault → Result CryptoKey
unfolding run
master_email_key env vault =
    last_result (run env (feature_key encryption "email" ∷ settle 0 ∷ []) vault).answers

last_result-append :
    (answers : List Answer) (a : Answer) → last_result (answers ++ a ∷ []) ≡ result_of a.outcome
last_result-append [] a = refl
last_result-append (b ∷ []) a = refl
last_result-append (b ∷ c ∷ rest) a = last_result-append (c ∷ rest) a

-- An idle session that is unlocked with `mdk`.
pub record IsIdle (env : Vault.Types.Env) (mdk : List ℕ) (s : Vault) : Type 0 where
  pub current : IsCurrent env s
  pub idle : s.pending ≡ []
  pub unlocked : s.mdk ≡ some mdk

email_key_of :
    (env : Vault.Types.Env) (mdk : List ℕ) (k : CryptoKey) (s : Vault)
    → IsIdle env mdk s
    → derive env encryption mdk "email" ≡ some k
    → master_email_key env s ≡ ok k
unfolding master_email_key
email_key_of env mdk k s p d =
    ap last_result (feature_key-settle env encryption "email" mdk k s p.current p.idle p.unlocked d)
    ∙ last_result-append s.answers
        (record { kind = encryption; feature = "email"; outcome = key (some k) })

module _ (env : Env) (restores : Restores env) where
  master_payload-unwrap :
      (k : CryptoKey) (iv bytes ciphertext : Bytes) (kind : String)
      → env.encrypt k iv (some (stable_json_context env (some (master_aad_context kind)))) bytes
        ≡ ok ciphertext
      → unwrap_bytes_with_master_key env (ok k) (master_payload env iv kind ciphertext) ≡ ok bytes
  unfolding unwrap_bytes_with_master_key wrap_params
  master_payload-unwrap k iv bytes ciphertext kind e = rw (restores.codec iv) (
      rw (restores.codec ciphertext) (
        restores.cipher k iv bytes ciphertext
          (some (stable_json_context env (some (master_aad_context kind)))) e))

  seal_with_master-unwrap :
      (k : CryptoKey) (iv bytes : Bytes) (kind : String) (w : MasterPayload)
      → seal_with_master env k iv bytes kind ≡ ok w
      → unwrap_bytes_with_master_key env (ok k) w ≡ ok bytes
  seal_with_master-unwrap k iv bytes kind w h =
      let (ciphertext, e, made) = bind_result-eq-ok _ _ h in
      ap (unwrap_bytes_with_master_key env (ok k))
        (sym (ok-inj (master_payload env iv kind ciphertext) w made))
      ∙ master_payload-unwrap k iv bytes ciphertext kind e

  wrap_with_master-unwrap :
      (k : CryptoKey) (bytes : Bytes) (kind : String) (s : Page) (w : MasterPayload)
      → (wrap_bytes_with_master_key env (ok k) bytes kind s).0 ≡ ok w
      → unwrap_bytes_with_master_key env (ok k) w ≡ ok bytes
  unfolding wrap_bytes_with_master_key
  wrap_with_master-unwrap k bytes kind s w h =
      seal_with_master-unwrap k (env.random s.draws 12) bytes kind w h

  unlock_with_master-ok :
      (k private_key : CryptoKey) (id : String) (bytes : Bytes) (w v : MasterPayload) (page : Page)
      → unwrap_bytes_with_master_key env (ok k) v ≡ ok (env.encode verify_text)
      → unwrap_bytes_with_master_key env (ok k) w ≡ ok bytes
      → env.import_private_key bytes ≡ ok private_key
      → unlock_mailbox_with_master env (ok k) id w v page
        ≡ (ok tt, unlocked_page id private_key page)
  unfolding unlock_mailbox_with_master
  unlock_with_master-ok k private_key id bytes w v page e f g =
      rw e
        (rw (restores.texts) (rw f (import_and_store-ok env restores id bytes private_key page g)))

  -- A mailbox that was set up under one session of the vault is unlocked under another that is
  -- unlocked with the same key, if both are idle, their cached keys are current, and the key of the
  -- feature can be derived: the page then has the private key that is imported.
  pub wrap_with_master-unlock :
      (vault_env : Vault.Types.Env) (mdk : List ℕ) (email_key : CryptoKey) (old new : Vault)
      (id : String) (bytes : Bytes) (s t page : Page) (w v : MasterPayload)
      (private_key : CryptoKey)
      → IsIdle vault_env mdk old
      → IsIdle vault_env mdk new
      → derive vault_env encryption mdk "email" ≡ some email_key
      → (wrap_bytes_with_master_key env (master_email_key vault_env old) bytes "private_key" s).0
        ≡ ok w
      → (wrap_bytes_with_master_key env
          (master_email_key vault_env old)
          (env.encode verify_text)
          "verifier"
          t).0
        ≡ ok v
      → env.import_private_key bytes ≡ ok private_key
      → truthy id ≡ true
      → ((unlock_mailbox_with_master env (master_email_key vault_env new) id w v page).0 ≡ ok tt)
        × (get_stored_private_key id
              (unlock_mailbox_with_master env (master_email_key vault_env new) id w v page).1
            ≡ some private_key)
  wrap_with_master-unlock vault_env mdk email_key old new id bytes s t page w v private_key p q d e
        f g h =
      let before = email_key_of vault_env mdk email_key old p d in
      let after = email_key_of vault_env mdk email_key new q d in
      let opened =
        wrap_with_master-unwrap email_key bytes "private_key" s w
          (ap (λ k. (wrap_bytes_with_master_key env k bytes "private_key" s).0) (sym before) ∙ e) in
      let checked = wrap_with_master-unwrap email_key (env.encode verify_text) "verifier" t v (
        ap (λ k. (wrap_bytes_with_master_key env k (env.encode verify_text) "verifier" t).0)
          (sym before)
        ∙ f) in
      let unlocked =
        ap (λ k. unlock_mailbox_with_master env k id w v page) after
        ∙ unlock_with_master-ok email_key private_key id bytes w v page checked opened g in
      (
        ap (λ r. r.0) unlocked,
        ap (λ r. get_stored_private_key id r.1) unlocked ∙ unlocked_page-key id private_key page h,
      )
