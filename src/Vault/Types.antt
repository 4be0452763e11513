-- ===== src/Vault/Types.antt =====
-- The state of the vault's session, and the platform under it.
use elektrine.Base.{ℕ, String, Bool, Option, List}

-- `deriveFeatureKey` makes keys for AES-GCM, `deriveFeatureHmacKey` keys for HMAC.
pub data Kind : Type 0 where
  encryption hmac : Kind

-- A `CryptoKey` is opaque.
abbrev pub CryptoKey : Type 0
CryptoKey = String

-- The platform: base64 of bytes, `atob` throwing as `none`; and HKDF with SHA-256 and an empty
-- salt, from the bytes and the info, `none` where the promise is rejected.
pub record Env : Type 0 where
  pub btoa : List ℕ → String
  pub atob : String → Option (List ℕ)
  pub hkdf : Kind → List ℕ → String → Option CryptoKey
  -- Whether `setItem` accepts the value.
  pub accepts : String → Bool

-- `window.sessionStorage`: there is none, each call of it throws, or it holds this value under
-- `SESSION_KEY`.
pub data Storage : Type 0 where
  missing throwing : Storage
  holding : Option String → Storage

-- A `deriveFeatureKey` or `deriveFeatureHmacKey` that is awaited.
pub record Derivation : Type 0 where
  pub kind : Kind
  pub feature : String
  pub mdk : List ℕ

-- What `featureKey` or `featureHmacKey` answers: a key, `undefined` as `none`, or an error: its message, or
-- `failed` with the platform's own.
pub data Outcome : Type 0 where
  key : Option CryptoKey → Outcome
  rejected : String → Outcome
  failed : Outcome

pub record Answer : Type 0 where
  pub kind : Kind
  pub feature : String
  pub outcome : Outcome

pub record Vault : Type 0 where
  pub mdk : Option (List ℕ)
  pub session : Storage
  -- `featureKeys` and `featureHmacKeys`
  pub keys : Kind → String → Option CryptoKey
  pub listeners : List ℕ
  -- The calls of listeners, the derivations that are awaited, and the answers, in order.
  pub notified : List (ℕ × Bool)
  pub pending : List Derivation
  pub answers : List Answer
