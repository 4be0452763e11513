-- ===== src/Vault/Refinement.antt =====
-- The session of a browser tab against an abstract session (vault_session.js).
use elektrine.Base.{
  ℕ, ◌==◌, ◌≡◌, refl, sym, ap, ◌∙◌, String, true, Bool, Option, none, some, List, [], ◌∷◌, length,
  truthy, ◌&&◌, all_true, ltb, and_left, and_right, inl, inr, Bool-cases, is_some, get_elem?,
  remove_at,
}
use elektrine.Vault.Types.{Kind, Env, holding, Derivation, CryptoKey, Vault}
use elektrine.Vault.Session.{
  Event, unlock, lock, feature_key, settle, subscribe, unsubscribe, reload, clear_stored_mdk,
  store_mdk, read_stored_mdk, unlock_with, lock_now, load_session, notify, step, run,
  ask_feature_key, derived, with_mdk, settle_at, derive,
}

-- The abstract session is the key alone.
unfoldable pub next_key : Event → Option (List ℕ) → Option (List ℕ)
next_key (unlock mdk) k = some mdk
next_key lock k = none
next_key _ k = k

unfoldable pub key_after : List Event → Option (List ℕ) → Option (List ℕ)
unfolding next_key
key_after [] k = k
key_after (e ∷ es) k = key_after es (next_key e k)

-- Thirty-two bytes.
abbrev pub is_key : List ℕ → Bool
is_key mdk = length mdk == 32 && all_true (λ b. ltb b 256) mdk

abbrev pub is_sound : Event → Bool
is_sound (unlock mdk) = is_key mdk
is_sound _ = true

abbrev pub are_sound : List Event → Bool
are_sound [] = true
are_sound (e ∷ es) = is_sound e && are_sound es

-- A storage that takes every key, and base64 that reads back what it wrote.
pub record Works (env : Env) : Type 0 where
  pub codec : (mdk : List ℕ) → is_key mdk ≡ true → env.atob (env.btoa mdk) ≡ some mdk
  pub nonempty : (mdk : List ℕ) → is_key mdk ≡ true → truthy (env.btoa mdk) ≡ true
  pub fits : (mdk : List ℕ) → is_key mdk ≡ true → env.accepts (env.btoa mdk) ≡ true

-- The storage can be used, and holds the key of the session, or nothing.
abbrev kept : Env → Option (List ℕ) → Option String
kept env none = none
kept env (some mdk) = some (env.btoa mdk)

pub record IsSynced (env : Env) (s : Vault) : Type 0 where
  pub stored : s.session ≡ holding (kept env s.mdk)
  pub size : (mdk : List ℕ) → s.mdk ≡ some mdk → is_key mdk ≡ true

same_mdk : (a b : List ℕ) → some a ≡ some b → a ≡ b
same_mdk a b h = cc

no_mdk : (b : List ℕ) (c : Bool) → ◌≡◌ {A = Option (List ℕ)} none (some b) → c ≡ true
no_mdk b c h = cc

abbrev Implements : Env → Event → Vault → Vault → Type 0
Implements env e s t = IsSynced env t × (t.mdk ≡ next_key e s.mdk)

-- An event that leaves the key and the storage as they are.
aside :
    (env : Env) (s t : Vault)
    → t.mdk ≡ s.mdk
    → t.session ≡ s.session
    → IsSynced env s
    → IsSynced env t × (t.mdk ≡ s.mdk)
aside env s t same kept_too p = (
  record {
    stored = kept_too ∙ p.stored ∙ ap (λ k. holding (kept env k)) (sym same);
    size = λ mdk h. p.size mdk (sym same ∙ h);
  },
  same,
)

with_mdk-aside :
    (kind : Kind) (feature : String) (k : Option (List ℕ)) (s : Vault)
    → ((with_mdk kind feature k s).mdk ≡ s.mdk) × ((with_mdk kind feature k s).session ≡ s.session)
with_mdk-aside kind feature none s = (refl, refl)
with_mdk-aside kind feature (some mdk) s = elim (Bool-cases (is_some (s.keys kind feature))) [
  | inl e ↦ (rw e refl, rw e refl)
  | inr e ↦ (rw e refl, rw e refl)
]

derived-aside :
    (d : Derivation) (k : Option CryptoKey) (s : Vault)
    → ((derived d k s).mdk ≡ s.mdk) × ((derived d k s).session ≡ s.session)
unfolding derived
derived-aside d none s = (refl, refl)
derived-aside d (some k) s = (refl, refl)

settle_at-aside :
    (env : Env) (i : ℕ) (o : Option Derivation) (s : Vault)
    → ((settle_at env i o s).mdk ≡ s.mdk) × ((settle_at env i o s).session ≡ s.session)
settle_at-aside env i none s = (refl, refl)
settle_at-aside env i (some d) s =
    derived-aside d (derive env d.kind d.mdk d.feature)
      (record s { pending = remove_at s.pending i })

module _ (env : Env) (w : Works env) where
  read-kept :
      (k : Option (List ℕ))
      → ((mdk : List ℕ) → k ≡ some mdk → is_key mdk ≡ true)
      → read_stored_mdk env (holding (kept env k)) ≡ (k, holding (kept env k))
  unfolding read_stored_mdk
  read-kept none size = refl
  read-kept (some mdk) size =
      let h = size mdk refl in
      rw (w.nonempty mdk h) (
        rw (w.codec mdk h)
          (rw (and_left (length mdk == 32) (all_true (λ b. ltb b 256) mdk) h) refl))

  step-Implements :
      (e : Event) (s : Vault)
      → is_sound e ≡ true
      → IsSynced env s
      → Implements env e s (step env e s)
  unfolding step next_key unlock_with lock_now store_mdk clear_stored_mdk ask_feature_key
      load_session notify
  step-Implements (unlock mdk) s h p = (
    record {
      stored = rw (p.stored, w.fits mdk h) refl;
      size = λ b e. ap is_key (sym (same_mdk mdk b e)) ∙ h;
    },
    refl,
  )
  step-Implements lock s h p =
      (record { stored = rw p.stored refl; size = λ b e. no_mdk b (is_key b) e }, refl)
  step-Implements (feature_key kind feature) s h p =
      let (same, kept_too) = with_mdk-aside kind feature s.mdk s in
      aside env s (with_mdk kind feature s.mdk s) same kept_too p
  step-Implements (settle i) s h p =
      let (same, kept_too) = settle_at-aside env i (get_elem? s.pending i) s in
      aside env s (settle_at env i (get_elem? s.pending i) s) same kept_too p
  step-Implements (subscribe l) s h p = aside env s _ refl refl p
  step-Implements (unsubscribe l) s h p = aside env s _ refl refl p
  step-Implements reload s h p =
      let read = ap (read_stored_mdk env) p.stored ∙ read-kept s.mdk p.size in
      aside env s (load_session env s.session) (ap (λ r. r.0) read)
        (ap (λ r. r.1) read ∙ sym p.stored) p

  -- While the storage takes the keys and base64 reads back what it wrote, the session of a tab
  -- does what the abstract one does: over any unlocks with 32 bytes, locks, questions for keys,
  -- answers of the platform, listeners and reloads of the page, it has the key of the last
  -- unlock, unless a lock came after it.
  pub run-refines :
      (es : List Event) (s : Vault)
      → are_sound es ≡ true
      → IsSynced env s
      → (run env es s).mdk ≡ key_after es s.mdk
  unfolding run key_after
  run-refines [] s h p = refl
  run-refines (e ∷ es) s h p =
      let (synced, same) = step-Implements e s (and_left (is_sound e) (are_sound es) h) p in
      run-refines es (step env e s) (and_right (is_sound e) (are_sound es) h) synced
      ∙ ap (key_after es) same
