-- ===== src/Nerve/Save/RoundTrip.antt =====
-- Saving a login and reading it back (savePendingEntry, loadEntryCredentials).
use elektrine.Base.{
  ℕ, String, ◌≡◌, ◌≢◌, refl, true, some, none, truthy, trim, arith, or_text, eq_iff, concat,
}
use text.Mathlib.TextLemmas.{append_cancel_left, append_cancel_right}
use elektrine.Nerve.Types.{
  Env, Attrs, Entry, Metadata, PendingSave, AssociatedData, ok, err, metadata, entry_field,
}
use elektrine.Nerve.Crypto.{is_client_payload, encrypt_value, decrypt_value, stable_json, quote}
use elektrine.Nerve.Session.{Session, with_metadata, hydrate_entry_metadata}
use elektrine.Nerve.Fill.{load_entry_credentials}
use elektrine.Nerve.Save.{SaveRequest, metadata_of, encrypted_attrs}

-- The entry that a server holds after `createEntry` with these attributes, and no notes.
abbrev pub stored : ℕ → Attrs → Entry
stored id attrs = record {
  id = id;
  title = some attrs.title;
  login_username = some attrs.login_username;
  website = some attrs.website;
  encrypted_metadata = some attrs.encrypted_metadata;
  encrypted_password = some attrs.encrypted_password;
  encrypted_notes = none;
}

-- Decryption undoes encryption under the same key and associated data.
pub record Decrypts (env : Env) : Type 0 where
  pub open_seal :
      (p k ad : String) → env.decrypt (env.encrypt p k ad).0 (env.encrypt p k ad).1 k ad ≡ ok p

-- AES-GCM authenticates the associated data.
pub record Authenticates (env : Env) : Type 0 where
  pub reject :
      (p k ad other : String)
      → ad ≢ other
      → env.decrypt (env.encrypt p k ad).0 (env.encrypt p k ad).1 k other ≡ err "OperationError"

or_text_of_truthy : (a b : String) → truthy a ≡ true → or_text a b ≡ a
or_text_of_truthy a b h = ground arith

decrypt_value-encrypt_value :
    (env : Env) (p k : String) (ad other : AssociatedData)
    → decrypt_value env (some (encrypt_value env p k ad)) k other
      ≡ env.decrypt
          (env.encrypt p k (stable_json ad)).0
          (env.encrypt p k (stable_json ad)).1
          k
          (stable_json other)
unfolding decrypt_value encrypt_value is_client_payload
decrypt_value-encrypt_value env p k ad other = refl

titles_differ :
    (u w : String)
    → stable_json (entry_field "password" (trim "") u w)
      ≢ stable_json (entry_field "password" (trim "Encrypted entry") u w)
unfolding trim stable_json quote
titles_differ u w e =
    let quotes : concat (quote "") (concat ",\"website\":" (concat (quote w) "}"))
        ≡ concat (quote "Encrypted entry") (concat ",\"website\":" (concat (quote w) "}")) =
      append_cancel_left _ _ _ e in
    ground (
      arith,
      eq_iff (quote "") (quote "Encrypted entry"),
      append_cancel_right (quote "") (quote "Encrypted entry") _ quotes,
    )

-- The worker reads the metadata that it wrote.
hydrate-stored :
    (env : Env) (id : ℕ) (m : Metadata) (password key : String)
    → Decrypts env
    → env.parse_metadata (env.stringify m) ≡ ok m
    → hydrate_entry_metadata env (stored id (encrypted_attrs env m password key)) key
      ≡ with_metadata (stored id (encrypted_attrs env m password key)) m
unfolding hydrate_entry_metadata is_client_payload encrypted_attrs encrypt_value decrypt_value
hydrate-stored env id m password key law text =
    rw (law.open_seal (env.stringify m) key (stable_json metadata), text) refl

module _ (env : Env) (session : Session) (id : ℕ) (pending : PendingSave) (request : SaveRequest)
    (law : Decrypts env)
    (text : env.parse_metadata (env.stringify (metadata_of env pending request))
      ≡ ok (metadata_of env pending request))
    (held : env.get_entry session.settings id
      ≡ ok (
          stored id (
            encrypted_attrs env
              (metadata_of env pending request)
              pending.password
              session.key))) where
  -- The password and the username that were saved under a title that is not blank are read back.
  pub load-save :
      truthy (metadata_of env pending request).title ≡ true
      → load_entry_credentials env session id
        ≡ ok (record {
          username = (metadata_of env pending request).login_username;
          password = pending.password;
          notes = "";
        })
  unfolding load_entry_credentials encrypted_attrs
  load-save h =
      let m = metadata_of env pending request in
      rw (held, hydrate-stored env id m pending.password session.key law text)
        (rw
          (
            or_text_of_truthy m.title "Encrypted entry" h,
            decrypt_value-encrypt_value,
            law.open_seal,
          )
          refl)

  -- A login that was saved under a blank title cannot be decrypted any more.
  pub load-save_blank :
      Authenticates env
      → (metadata_of env pending request).title ≡ ""
      → load_entry_credentials env session id ≡ err "OperationError"
  unfolding load_entry_credentials encrypted_attrs
  load-save_blank auth h =
      let m = metadata_of env pending request in
      rw (held, hydrate-stored env id m pending.password session.key law text)
        (rw (h, decrypt_value-encrypt_value, auth.reject _ _ _ _ (titles_differ _ _)) refl)
