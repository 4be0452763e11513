-- ===== src/Chat/Store.antt =====
-- What a browser keeps of its chats, and `loadSecureJson`. The calls of indexedDB and localStorage
-- succeed.
use elektrine.Base.{ℕ, String, Bool, Option, none, some, List, if◌then◌else◌, ◌==◌, ◌===◌}
use elektrine.Base.Effects.{Does}
use elektrine.Chat.Types.{Device, KeyPackage, Bytes, Message}

-- One key of indexedDB and, for older versions of the page, of localStorage.
pub record Slot {ℓ} (A : Type ℓ) : Type ℓ where
  pub secure : Option A
  pub local : Option A

module _ {ℓ} {A : Type ℓ} where
  abbrev pub put : A → Slot A
  put a = record { secure = some a; local = none }

  -- `loadSecureJson`: the value, and the slot after the value has moved to indexedDB.
  unfoldable pub load_secure_json : Slot A → Option A × Slot A
  load_secure_json slot = elim slot.secure [
    | some a ↦ (some a, slot)
    | none ↦ elim slot.local [ none ↦ (none, slot) | some a ↦ (some a, put a) ]
  ]

-- `active-key` of a conversation.
pub record ActiveKey : Type 0 where
  pub key_uid : String
  pub devices_hash : String
  pub packages_sent_hash : Option String

-- `preparedConversationKey`
pub record PreparedKey : Type 0 where
  pub key_uid : String
  pub hash : String
  pub key_packages : List KeyPackage

-- This browser's device.
pub record LocalDevice : Type 0 where
  pub device_id : String
  pub private_key : String

pub record Chat : Type 0 where
  pub conversation_id : ℕ
  -- the devices of the conversation, as the page holds them
  pub devices : List Device
  pub device : LocalDevice
  -- the slots `trust:…` with the trusted fingerprint, `active-key`, `keys` and `key:…`
  pub trust : String → Slot String
  pub active : ℕ → Slot ActiveKey
  pub key_lists : ℕ → Slot (List String)
  pub raw_keys : ℕ → String → Slot String
  -- `rawConversationKeyCache`, `unavailableConversationKeys`, `sentPlaintexts` from the oldest on
  pub raw_key_cache : ℕ → String → Option Bytes
  pub unavailable : ℕ → String → Bool
  pub sent_plaintexts : List (String × String)
  pub prepared : Option PreparedKey
  -- the random values drawn so far, and the messages sent to the server
  pub drawn : ℕ
  pub pushed : List Message

abbrev pub M {ℓ} : Type ℓ → Type ℓ
M A = Does Chat A

module _ {ℓ} {A : Type ℓ} where
  abbrev pub at_text : String → A → (String → A) → String → A
  at_text k a f j = if k === j then a else f j

  abbrev pub at_number : ℕ → A → (ℕ → A) → ℕ → A
  at_number k a f j = if k == j then a else f j

  abbrev pub at_key : ℕ → String → A → (ℕ → String → A) → ℕ → String → A
  at_key n k a f m j = if n == m then at_text k a (f n) j else f m j
