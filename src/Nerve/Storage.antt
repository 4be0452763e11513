-- ===== src/Nerve/Storage.antt =====
-- lib/storage.js: the settings, and the two maps that are kept for each tab. The calls of
-- `chrome.storage` are taken to succeed.
use elektrine.Base.{
  ℕ, zero, suc, ◌-◌, ◌*◌, String, Bool, true, ◌||◌, Option, none, some, ltb, ◌==◌, if◌then◌else◌,
  truthy, text_of, trim, lookup, erase, insert,
}
use elektrine.Nerve.Types.{Settings, PendingSave, StagedFill}
use elektrine.Nerve.Effects.{M, State, ◌>>=◌, ◌>>◌, pure, get, modify}

-- `value || null` on a stored string.
abbrev pub or_null : Option String → Option String
or_null none = none
or_null (some t) = if truthy t then some t else none

abbrev pub settings_of : State → Settings
settings_of s =
    let token = text_of s.stored_token in
    record {
      server_url = text_of s.stored_url;
      api_token = token;
      theme = if truthy token then or_null s.stored_theme else none;
    }

unfoldable pub get_settings : M Settings
get_settings = do s ← get; pure (settings_of s)

-- `theme` is `none` where the argument has no such property.
unfoldable pub save_settings : String → String → (theme : Option (Option String)) → M (Unit {0})
save_settings url token theme = do
  modify (λ s. record s { stored_url = some (trim url) })
  let api_token = trim token
  modify (λ s. record s {
    stored_token = some api_token;
    stored_theme = elim theme [ none ↦ s.stored_theme | some t ↦ t ];
  })
  if truthy api_token then pure tt else modify (λ s. record s { stored_theme = none })

unfoldable pub clear_session_passphrase : M (Unit {0})
clear_session_passphrase = modify (λ s. record s { stored_passphrase = none })

abbrev pub pending_ttl : ℕ
pending_ttl = 5 * 60 * 1000

-- A missing identifier and 0 are falsy.
abbrev pub truthy_id : Option ℕ → Option ℕ
truthy_id none = none
truthy_id (some zero) = none
truthy_id (some (suc n)) = some (suc n)

-- `!value?.recordedAt || Date.now() - value.recordedAt > TTL`; a negative age is not above it.
abbrev pub pending_save_expired : ℕ → Option PendingSave → Bool
pending_save_expired now none = true
pending_save_expired now (some p) = p.recorded_at == 0 || ltb pending_ttl (now - p.recorded_at)

abbrev get_pending_at : Option ℕ → M (Option PendingSave)
get_pending_at none = pure none
get_pending_at (some k) = do
  s ← get
  let value = lookup k s.pending
  if pending_save_expired s.now value
      then (do modify (λ s. record s { pending = erase k s.pending }); pure none)
      else pure value

unfoldable pub get_pending_save : Option ℕ → M (Option PendingSave)
get_pending_save tab = get_pending_at (truthy_id tab)

unfoldable pub set_pending_save : Option ℕ → PendingSave → M (Unit {0})
set_pending_save tab value = elim (truthy_id tab) [
  | none ↦ pure tt
  | some k ↦ modify (λ s. record s { pending = insert k value s.pending })
]

unfoldable pub clear_pending_save : Option ℕ → M (Unit {0})
clear_pending_save tab = elim (truthy_id tab) [
  | none ↦ pure tt
  | some k ↦ modify (λ s. record s { pending = erase k s.pending })
]

unfoldable pub get_staged_fill : Option ℕ → M (Option StagedFill)
get_staged_fill tab = elim (truthy_id tab) [
  | none ↦ pure none
  | some k ↦ (do s ← get; pure (lookup k s.staged))
]

unfoldable pub set_staged_fill : Option ℕ → StagedFill → M (Unit {0})
set_staged_fill tab value = elim (truthy_id tab) [
  | none ↦ pure tt
  | some k ↦ modify (λ s. record s { staged = insert k value s.staged })
]

unfoldable pub clear_staged_fill : Option ℕ → M (Unit {0})
clear_staged_fill tab = elim (truthy_id tab) [
  | none ↦ pure tt
  | some k ↦ modify (λ s. record s { staged = erase k s.staged })
]
