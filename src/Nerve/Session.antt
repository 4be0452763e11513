-- ===== src/Nerve/Session.antt =====
-- background.js: the session passphrase and its expiry, unlocking, and the vault session that
-- every request for entries starts from.
pub mod Clear
use elektrine.Base.{
  ℕ, ◌+◌, ◌*◌, String, Bool, true, false, ◌&&◌, Option, none, some, List, [], ◌∷◌, ltb, leb,
  if◌then◌else◌, truthy, or_text, text_of, is_some, map,
}
use elektrine.Base.Effects.{bind_result}
use elektrine.Nerve.Types.{Settings, Entry, Listing, Env, Metadata, metadata, Result, ok, err}
use elektrine.Nerve.Effects.{◌>>=◌, ◌>>◌, M, session_changed, pure, throw, lift, get, modify, emit}
use elektrine.Nerve.Crypto.{is_client_payload, decrypt_value}
use elektrine.Nerve.Storage.{get_settings, clear_session_passphrase, or_null}
use elektrine.Nerve.Urls.{allowed_page_url}

abbrev pub idle_timeout : ℕ
idle_timeout = 15 * 60 * 1000

abbrev pub feature : String
feature = "nerve"

-- `status` and what each status comes with; a failure to unlock is no exception.
pub data Status : Type 0 where
  disconnected unconfigured locked ready : Status

pub record Session : Type 0 where
  pub status : Status
  pub settings : Settings
  pub theme : Option String
  pub key : String
  pub entries : List Entry

-- `metadata.title || entry.title || "Encrypted entry"` and the two other fields.
abbrev pub with_metadata : Entry → Metadata → Entry
with_metadata entry m = record entry {
  title = some (or_text m.title (or_text (text_of entry.title) "Encrypted entry"));
  login_username = some m.login_username;
  website = some m.website;
}

abbrev or_keep : Entry → Result Metadata → Entry
or_keep entry (ok m) = with_metadata entry m
or_keep entry (err e) = entry

-- A session without a key.
abbrev closed : Status → Settings → Option String → List Entry → Session
closed st settings theme entries = record {
  status = st;
  settings = settings;
  theme = theme;
  key = "";
  entries = entries;
}

-- The error of a failed `unwrapWithSecret`, in its place.
abbrev or_wrong_password : Result String → M (Unit {0})
or_wrong_password (ok mdk) = pure tt
or_wrong_password (err e) =
    throw "Incorrect account password. If you just reset it, recover encrypted data on the website."

module _ (env : Env) where
  unfoldable pub hydrate_entry_metadata : Entry → String → Entry
  hydrate_entry_metadata entry key =
      if is_client_payload entry.encrypted_metadata
      then or_keep entry
          (bind_result (decrypt_value env entry.encrypted_metadata key metadata) env.parse_metadata)
      else entry

  unfoldable pub hydrate_entries : List Entry → String → List Entry
  hydrate_entries entries key = map (λ e. hydrate_entry_metadata e key) entries

  unfoldable pub send_to : List (Option ℕ × String) → String → M (Unit {0})
  send_to [] status = pure tt
  send_to ((none, url) ∷ tabs) status = send_to tabs status
  send_to ((some id, url) ∷ tabs) status = do
    if ltb 0 id && allowed_page_url env (some url)
        then emit (session_changed id status)
        else pure tt
    send_to tabs status

  unfoldable pub broadcast_nerve_session_changed : String → M (Unit {0})
  unfolding send_to
  broadcast_nerve_session_changed status = send_to env.page_tabs status

  unfoldable pub clear_runtime_session_passphrase : (broadcast : Bool) → M (Unit {0})
  clear_runtime_session_passphrase broadcast = do
    modify (λ s. record s { passphrase = ""; expires_at = 0; timer = none })
    clear_session_passphrase
    if broadcast then broadcast_nerve_session_changed "locked" else pure tt

  -- The old timer is cleared: one timer is running, and it is due when the passphrase expires.
  unfoldable pub schedule_session_passphrase_expiry : M (Unit {0})
  schedule_session_passphrase_expiry = do
    s ← get
    if truthy s.passphrase
        then modify (λ s. record s {
          expires_at = s.now + idle_timeout;
          timer = some (s.now + idle_timeout);
        })
        else clear_runtime_session_passphrase false

  unfoldable pub expire_session_passphrase_if_needed : M Bool
  expire_session_passphrase_if_needed = do
    s ← get
    if truthy s.passphrase && ltb 0 s.expires_at && leb s.expires_at s.now
        then (do clear_runtime_session_passphrase true; pure true)
        else pure false

  unfoldable pub current_session_passphrase : M String
  current_session_passphrase = do
    expired ← expire_session_passphrase_if_needed
    s ← get
    pure (if expired then "" else s.passphrase)

  -- `unwrapWithSecret` and `deriveFeatureKey`, under one `try`.
  abbrev unlock_key : Listing → String → Result String
  unlock_key listing secret =
      bind_result (env.unwrap listing.master_wrapped_dek secret) (λ mdk. env.derive mdk feature)

  abbrev opened : Settings → Option String → List Entry → Result String → M Session
  opened settings theme entries (ok key) = do
    schedule_session_passphrase_expiry
    pure (record {
      status = ready;
      settings = settings;
      theme = theme;
      key = key;
      entries = hydrate_entries entries key;
    })
  opened settings theme entries (err e) = do
    clear_runtime_session_passphrase true
    pure (closed locked settings theme entries)

  abbrev with_listing : Settings → Listing → M Session
  with_listing settings listing =
      let theme : Option String = elim (or_null listing.theme) [
        | some t ↦ some t
        | none ↦ or_null settings.theme
      ] in
      if listing.master_configured
      then (do
        passphrase ← current_session_passphrase
        if truthy passphrase
            then opened settings theme listing.entries (unlock_key listing passphrase)
            else pure (closed locked settings theme listing.entries))
      else pure (closed unconfigured settings theme listing.entries)

  unfoldable pub get_nerve_session : M Session
  get_nerve_session = do
    settings ← get_settings
    if truthy settings.server_url && truthy settings.api_token
        then (do listing ← lift (env.list_entries settings); with_listing settings listing)
        else pure (closed disconnected settings none [])

  abbrev check_password : Listing → String → M (Unit {0})
  check_password listing secret =
      if listing.master_configured
      then if is_some listing.master_wrapped_dek
        then or_wrong_password (env.unwrap listing.master_wrapped_dek secret)
        else throw "Encrypted data metadata is not available yet."
      else throw "Set up account-password encryption in Elektrine first."

  -- The end of `unlockSession` and of the `SET_SESSION_PASSPHRASE` case.
  unfoldable pub store_passphrase : String → M (Unit {0})
  store_passphrase secret = do
    modify (λ s. record s { passphrase = secret })
    clear_session_passphrase
    schedule_session_passphrase_expiry
    broadcast_nerve_session_changed "unlocked"

  unfoldable pub unlock_session : String → M (Unit {0})
  unlock_session secret = do
    settings ← get_settings
    if truthy settings.server_url && truthy settings.api_token
        then pure tt
        else throw "Connect your Elektrine account first."
    if truthy secret then pure tt else throw "Enter your account password."
    listing ← lift (env.list_entries settings)
    check_password listing secret
    store_passphrase secret
