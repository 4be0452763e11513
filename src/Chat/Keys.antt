-- ===== src/Chat/Keys.antt =====
-- chat_e2ee_hook.js: the keys of a conversation, and which one the next message takes.
use elektrine.Base.{
  ℕ, ◌+◌, String, Bool, true, false, not, ◌&&◌, ◌||◌, Option, none, some, List, [], ◌∷◌, ◌++◌,
  if◌then◌else◌, ◌===◌, truthy, text_of, is_some,
}
use elektrine.Base.Effects.{Result, ok, err, pure, lift, get, modify, ◌>>=◌, ◌>>◌}
use elektrine.Chat.Types.{Device, Bytes, Env}
use elektrine.Chat.Store.{M, Slot, ActiveKey, put, load_secure_json, at_number, at_key}
use elektrine.Chat.Devices.{devices_hash}

-- `Array.includes`
abbrev pub includes_text : List String → String → Bool
includes_text [] x = false
includes_text (y ∷ ys) x = y === x || includes_text ys x

abbrev texts_of : Option (List String) → List String
texts_of none = []
texts_of (some xs) = xs

abbrev pub or_throw {ℓ} : {A : Type ℓ} → String → Option A → Result A
or_throw e none = err e
or_throw e (some a) = ok a

-- The key that a message is encrypted with, and whether it has to be sent to the devices first.
pub record ConversationKey : Type 0 where
  pub key_uid : String
  pub raw_key : Bytes
  pub packages_needed : Bool
  pub hash : String

abbrev empty_slot : Slot String
empty_slot = record { secure = none; local = none }

unfoldable pub store_raw_conversation_key : ℕ → String → Bytes → M (Unit {0})
unfolding load_secure_json
store_raw_conversation_key conversation key_uid raw_key s =
    let listed = load_secure_json (s.key_lists conversation) in
    let uids = texts_of listed.0 in
    (
      ok tt,
      record s {
        raw_key_cache = at_key conversation key_uid (some raw_key) s.raw_key_cache;
        raw_keys = at_key conversation key_uid empty_slot s.raw_keys;
        key_lists =
            at_number conversation
              (if includes_text uids key_uid then listed.1 else put (uids ++ key_uid ∷ []))
              s.key_lists;
      },
    )

unfoldable pub store_active_conversation_key : ℕ → String → String → Option String → M (Unit {0})
store_active_conversation_key conversation key_uid hash packages_sent_hash = modify (λ s. record s {
  active =
      at_number conversation
        (put (record {
          key_uid = key_uid;
          devices_hash = hash;
          packages_sent_hash = packages_sent_hash;
        }))
        s.active;
})

module _ (env : Env) where
  abbrev cleared : Slot String → Slot String
  cleared slot =
      if truthy (text_of slot.secure)
      then record slot { secure = none }
      else record slot { local = none }

  abbrev cache_stored : ℕ → String → Option String → M (Option Bytes)
  cache_stored conversation key_uid none = pure none
  cache_stored conversation key_uid (some text) = do
    raw_key ← lift (or_throw "InvalidCharacterError" (env.base64_to_bytes text))
    modify (λ s. record s {
      raw_key_cache = at_key conversation key_uid (some raw_key) s.raw_key_cache;
      raw_keys = at_key conversation key_uid (cleared (s.raw_keys conversation key_uid)) s.raw_keys;
    })
    pure (some raw_key)

  abbrev first_text : Slot String → Option String
  first_text slot =
      if truthy (text_of slot.secure)
      then slot.secure
      else if truthy (text_of slot.local)
      then slot.local
      else none

  unfoldable pub load_raw_conversation_key : ℕ → String → M (Option Bytes)
  load_raw_conversation_key conversation key_uid = do
    s ← get
    elim (s.raw_key_cache conversation key_uid) [
      | some raw_key ↦ pure (some raw_key)
      | none ↦ cache_stored conversation key_uid (first_text (s.raw_keys conversation key_uid))
    ]

  abbrev pub new_conversation_key : ℕ → String → M ConversationKey
  new_conversation_key conversation hash = do
    s ← get
    let key_uid = env.random_id s.drawn
    let raw_key = env.random_bytes 32 (s.drawn + 1)
    modify (λ t. record t { drawn = t.drawn + 2 })
    store_raw_conversation_key conversation key_uid raw_key
    store_active_conversation_key conversation key_uid hash none
    pure (record { key_uid = key_uid; raw_key = raw_key; packages_needed = true; hash = hash })

  abbrev load_active : ℕ → M (Option ActiveKey)
  load_active conversation s =
      let loaded = load_secure_json (s.active conversation) in
      (ok loaded.0, record s { active = at_number conversation loaded.1 s.active })

  abbrev pub is_current : String → ActiveKey → Bool
  is_current hash active = truthy active.key_uid && active.devices_hash === hash

  abbrev pub with_raw : ℕ → String → ActiveKey → Option Bytes → M ConversationKey
  with_raw conversation hash active none = new_conversation_key conversation hash
  with_raw conversation hash active (some raw_key) = pure (record {
    key_uid = active.key_uid;
    raw_key = raw_key;
    packages_needed =
        not (is_some active.packages_sent_hash && text_of active.packages_sent_hash === hash);
    hash = hash;
  })

  abbrev pub with_active : ℕ → String → Option ActiveKey → M ConversationKey
  with_active conversation hash none = new_conversation_key conversation hash
  with_active conversation hash (some active) =
      if is_current hash active
      then (do
        raw_key ← load_raw_conversation_key conversation active.key_uid
        with_raw conversation hash active raw_key)
      else new_conversation_key conversation hash

  unfoldable pub conversation_key_for_devices : List Device → M ConversationKey
  unfolding load_secure_json load_raw_conversation_key store_raw_conversation_key
      store_active_conversation_key devices_hash
  conversation_key_for_devices devices = do
    s ← get
    active ← load_active s.conversation_id
    with_active s.conversation_id (devices_hash env devices) active
