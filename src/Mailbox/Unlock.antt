-- ===== src/Mailbox/Unlock.antt =====
-- mailbox_private_crypto.js: the imported keys of a page, and what they open.
use elektrine.Base.{String, Option, none, some, [], ◌∷◌, ◌++◌, ◌===◌, if◌then◌else◌, leb, truthy}
use elektrine.Base.Effects.{Result, ok, err, bind_result, lift, ◌>>=◌, ◌>>◌, modify}
use elektrine.Mailbox.Types.{Bytes, CryptoKey, MasterPayload, Payload, Envelope, Env, Page, M}
use elektrine.Mailbox.Wrap.{verify_text, unwrap_bytes, unwrap_bytes_with_master_key}

abbrev pub get_stored_private_key : String → Page → Option CryptoKey
get_stored_private_key mailbox_id s = if truthy mailbox_id then s.keys mailbox_id else none

abbrev pub with_key :
    String → Option CryptoKey → (String → Option CryptoKey) → String → Option CryptoKey
with_key mailbox_id key keys other = if mailbox_id === other then key else keys other

abbrev pub store_private_key : String → CryptoKey → Page → Page
store_private_key mailbox_id key s =
    if truthy mailbox_id then record s { keys = with_key mailbox_id (some key) s.keys } else s

abbrev pub clear_private_key : String → Page → Page
clear_private_key mailbox_id s =
    if truthy mailbox_id then record s { keys = with_key mailbox_id none s.keys } else s

abbrev pub dispatch_mailbox_event : String → String → Page → Page
dispatch_mailbox_event name mailbox_id s = record s {
  dispatched = s.dispatched ++ (name, mailbox_id) ∷ [];
}

abbrev envelope_aad : Envelope → String → String
envelope_aad envelope fallback = elim envelope.aad_context [
  | none ↦ fallback
  | some context ↦ if leb 2 envelope.version then context else fallback
]

module _ (env : Env) where
  -- `verifierText !== VERIFY_TEXT`
  abbrev pub verified : String → Bytes → Result (Unit {0})
  verified message bytes = if env.decode bytes === verify_text then ok tt else err message

  unfoldable pub unwrap_mailbox_private_key : Payload → Payload → String → Result Bytes
  unfolding unwrap_bytes
  unwrap_mailbox_private_key wrapped_key verifier passphrase =
      bind_result (unwrap_bytes env verifier passphrase) (λ bytes.
        bind_result (verified "invalid-passphrase" bytes)
          (λ _. unwrap_bytes env wrapped_key passphrase))

  unfoldable pub import_and_store_private_key : String → Bytes → M (Unit {0})
  import_and_store_private_key mailbox_id bytes = do
    key ← lift (env.import_private_key bytes)
    modify (store_private_key mailbox_id key)
    modify (dispatch_mailbox_event "elektrine:private-mailbox-unlocked" mailbox_id)

  unfoldable pub unlock_mailbox : String → Payload → Payload → String → M (Unit {0})
  unfolding unwrap_mailbox_private_key import_and_store_private_key
  unlock_mailbox mailbox_id wrapped_key verifier passphrase = do
    bytes ← lift (unwrap_mailbox_private_key wrapped_key verifier passphrase)
    import_and_store_private_key mailbox_id bytes

  unfoldable pub unlock_mailbox_with_master :
      Result CryptoKey → String → MasterPayload → MasterPayload → M (Unit {0})
  unfolding unwrap_bytes_with_master_key import_and_store_private_key
  unlock_mailbox_with_master email_key mailbox_id wrapped_key verifier = do
    checked ← lift (unwrap_bytes_with_master_key env email_key verifier)
    _ ← lift (verified "invalid-master-key" checked)
    bytes ← lift (unwrap_bytes_with_master_key env email_key wrapped_key)
    import_and_store_private_key mailbox_id bytes

  abbrev opened_by : Envelope → String → Option CryptoKey → Result (Option String)
  opened_by envelope aad none = ok none
  opened_by envelope aad (some private_key) =
      bind_result (env.atob envelope.encrypted_key) (λ wrapped.
        bind_result (env.rsa_decrypt private_key wrapped) (λ bytes.
          bind_result (env.import_content_key bytes) (λ key.
            bind_result (env.atob envelope.ciphertext) (λ ciphertext.
              bind_result (env.atob envelope.tag) (λ tag. bind_result (env.atob envelope.iv) (λ iv.
                bind_result
                  (env.decrypt key iv (some (envelope_aad envelope aad)) (ciphertext ++ tag))
                  (λ plain.
                    bind_result (env.parse_json (env.decode plain))
                      (λ value. ok (some value)))))))))

  unfoldable pub decrypt_envelope : Envelope → String → String → Page → Result (Option String)
  decrypt_envelope envelope mailbox_id aad s =
      opened_by envelope aad (get_stored_private_key mailbox_id s)

  abbrev pub decrypt_message_payload : Envelope → String → Page → Result (Option String)
  decrypt_message_payload envelope mailbox_id =
      decrypt_envelope envelope mailbox_id "ElektrineMailboxStorageV1"

  abbrev pub decrypt_attachment_payload : Envelope → String → Page → Result (Option String)
  decrypt_attachment_payload envelope mailbox_id =
      decrypt_envelope envelope mailbox_id "ElektrineMailboxAttachmentV1"
