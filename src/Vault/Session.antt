-- ===== src/Vault/Session.antt =====
-- vault_session.js, function by function; featureKey and featureHmacKey are cut at their `await`.
-- A listener does not call the session.
use elektrine.Base.{
  ℕ, String, Bool, Option, none, some, List, [], ◌∷◌, ◌++◌, map, if◌then◌else◌, ◌==◌, ◌===◌, not,
  is_some, length, get_elem?, remove_at, keep_if, find, truthy, concat,
}
use elektrine.Vault.Types.{
  Kind, encryption, hmac, CryptoKey, Env, Storage, missing, throwing, holding, Derivation, Outcome,
  key, rejected, failed, Vault,
}

pub data Event : Type 0 where
  unlock : List ℕ → Event
  lock : Event
  feature_key : Kind → String → Event
  settle : (index : ℕ) → Event
  subscribe unsubscribe : ℕ → Event
  reload : Event

abbrev hkdf_prefix : String
hkdf_prefix = "elektrine-vault:"

-- The `info` of a feature's key.
unfoldable pub feature_info : Kind → String → String
feature_info encryption feature = concat hkdf_prefix feature
feature_info hmac feature = concat hkdf_prefix (concat feature ":hmac")

unfoldable pub is_unlocked : Vault → Bool
is_unlocked s = is_some s.mdk

unfoldable pub notify : Vault → Vault
unfolding is_unlocked
notify s = record s { notified = s.notified ++ map (λ l. (l, is_unlocked s)) s.listeners }

unfoldable pub clear_stored_mdk : Storage → Storage
clear_stored_mdk missing = missing
clear_stored_mdk throwing = throwing
clear_stored_mdk (holding item) = holding none

abbrev no_keys : Kind → String → Option CryptoKey
no_keys kind feature = none

-- `Map.set` and `Set.add`.
unfoldable pub set_key :
    Kind
    → String
    → CryptoKey
    → (Kind → String → Option CryptoKey)
    → Kind
    → String
    → Option CryptoKey
set_key encryption feature k keys encryption other =
    if feature === other then some k else keys encryption other
set_key hmac feature k keys hmac other = if feature === other then some k else keys hmac other
set_key _ feature k keys kind other = keys kind other

abbrev add : ℕ → List ℕ → List ℕ
add l ls = if is_some (find (λ m. m == l) ls) then ls else ls ++ l ∷ []

abbrev answer : Kind → String → Outcome → Vault → Vault
answer kind feature outcome s = record s {
  answers = s.answers ++ record { kind = kind; feature = feature; outcome = outcome } ∷ [];
}

-- `return featureKeys.get(feature)`
abbrev answer_cached : Kind → String → Vault → Vault
answer_cached kind feature s = answer kind feature (key (s.keys kind feature)) s

-- `featureKey` and `featureHmacKey`, up to their `await`.
abbrev pub with_mdk : Kind → String → Option (List ℕ) → Vault → Vault
with_mdk kind feature none s = answer kind feature (rejected "vault-locked") s
with_mdk kind feature (some mdk) s =
    if is_some (s.keys kind feature) then answer_cached kind feature s else record s {
      pending = s.pending ++ record { kind = kind; feature = feature; mdk = mdk } ∷ [];
    }

unfoldable pub ask_feature_key : Kind → String → Vault → Vault
ask_feature_key kind feature s = with_mdk kind feature s.mdk s

-- And what follows it.
unfoldable pub derived : Derivation → Option CryptoKey → Vault → Vault
unfolding set_key
derived d none s = answer d.kind d.feature failed s
derived d (some k) s =
    answer_cached d.kind d.feature (record s { keys = set_key d.kind d.feature k s.keys })

abbrev pub checked : Option (List ℕ) → Storage → Option (List ℕ) × Storage
checked none session = (none, clear_stored_mdk session)
checked (some bytes) session = (if length bytes == 32 then some bytes else none, session)

module _ (env : Env) where
  unfoldable pub derive : Kind → List ℕ → String → Option CryptoKey
  unfolding feature_info
  derive kind mdk feature = env.hkdf kind mdk (feature_info kind feature)

  -- The key, and the storage after the reading.
  unfoldable pub read_stored_mdk : Storage → Option (List ℕ) × Storage
  unfolding clear_stored_mdk
  read_stored_mdk missing = (none, missing)
  read_stored_mdk throwing = (none, throwing)
  read_stored_mdk (holding none) = (none, holding none)
  read_stored_mdk (holding (some value)) =
      if truthy value
      then checked (env.atob value) (holding (some value))
      else (none, holding (some value))

  unfoldable pub store_mdk : List ℕ → Storage → Storage
  store_mdk mdk missing = missing
  store_mdk mdk throwing = throwing
  store_mdk mdk (holding item) =
      let value = env.btoa mdk in if env.accepts value then holding (some value) else holding item

  -- The module of a page that loads with this storage.
  unfoldable pub load_session : Storage → Vault
  unfolding read_stored_mdk
  load_session session =
      let read = read_stored_mdk session in
      record {
        mdk = read.0;
        session = read.1;
        keys = no_keys;
        listeners = [];
        notified = [];
        pending = [];
        answers = [];
      }

  abbrev pub settle_at : ℕ → Option Derivation → Vault → Vault
  settle_at i none s = s
  settle_at i (some d) s =
      derived d (derive d.kind d.mdk d.feature) (record s { pending = remove_at s.pending i })

  unfoldable pub unlock_with : List ℕ → Vault → Vault
  unfolding store_mdk notify
  unlock_with mdk s =
      notify (record s { mdk = some mdk; session = store_mdk mdk s.session; keys = no_keys })

  unfoldable pub lock_now : Vault → Vault
  unfolding clear_stored_mdk notify
  lock_now s =
      notify (record s { mdk = none; session = clear_stored_mdk s.session; keys = no_keys })

  unfoldable pub step : Event → Vault → Vault
  unfolding unlock_with lock_now ask_feature_key derived derive load_session
  step (unlock mdk) s = unlock_with mdk s
  step lock s = lock_now s
  step (feature_key kind feature) s = ask_feature_key kind feature s
  step (settle i) s = settle_at i (get_elem? s.pending i) s
  step (subscribe l) s = record s { listeners = add l s.listeners }
  step (unsubscribe l) s = record s { listeners = keep_if (λ m. not (m == l)) s.listeners }
  step reload s = load_session s.session

  unfoldable pub run : List Event → Vault → Vault
  unfolding step
  run [] s = s
  run (e ∷ es) s = run es (step e s)
