-- ===== src/Mailbox/Types.antt =====
-- What a page of the private mailbox keeps, and the platform under it.
use elektrine.Base.{ℕ, String, Option, List}
use elektrine.Base.Effects.{Result, Does}

abbrev pub Bytes : Type 0
Bytes = List ℕ

-- A `CryptoKey` is opaque.
abbrev pub CryptoKey : Type 0
CryptoKey = String

-- `aad_context`, with the fields that `keyWrapAADContext` and `masterAADContext` give it.
pub record Context : Type 0 where
  pub purpose : String
  pub version : ℕ
  pub kind : String
  pub algorithm : String
  pub kdf : String
  pub unlock_mode : Option String

pub record ScryptParams : Type 0 where
  pub n : ℕ
  pub r : ℕ
  pub p : ℕ

-- What `wrapBytesWithMasterKey` makes.
pub record MasterPayload : Type 0 where
  pub version : ℕ
  pub algorithm : String
  pub kdf : String
  pub unlock_mode : Option String
  pub aad_context : Option Context
  pub iv : String
  pub ciphertext : String

-- What `wrapBytes` makes.
pub record Payload : Type 0 where
  pub version : ℕ
  pub algorithm : String
  pub kdf : String
  pub unlock_mode : Option String
  pub aad_context : Option Context
  pub iv : String
  pub ciphertext : String
  pub params : ScryptParams
  pub salt : String

-- A message or an attachment, encrypted by the server; its `aad_context` is the text that `stableJson` makes of it.
pub record Envelope : Type 0 where
  pub version : ℕ
  pub aad_context : Option String
  pub encrypted_key : String
  pub ciphertext : String
  pub tag : String
  pub iv : String

-- The platform: an `err` is the message of the error that is thrown. `encrypt` and `decrypt` are AES-GCM on
-- a key, an iv and the text of the associated data, where there is one; `random` is the result of
-- a draw, by its number and length; `parse_json` is on the text of a document.
pub record Env : Type 0 where
  pub btoa : Bytes → String
  pub atob : String → Result Bytes
  pub encode : String → Bytes
  pub decode : Bytes → String
  pub decimal : ℕ → String
  pub random : (draw length : ℕ) → Bytes
  pub scrypt : (passphrase : String) (salt : Bytes) → ScryptParams → Result CryptoKey
  pub encrypt : CryptoKey → (iv : Bytes) (aad : Option String) → Bytes → Result Bytes
  pub decrypt : CryptoKey → (iv : Bytes) (aad : Option String) → Bytes → Result Bytes
  pub import_private_key : Bytes → Result CryptoKey
  pub rsa_decrypt : CryptoKey → Bytes → Result Bytes
  pub import_content_key : Bytes → Result CryptoKey
  pub parse_json : String → Result String

-- A page: `importedPrivateKeys`, the events of mailboxes that were dispatched, and the number of
-- draws.
pub record Page : Type 0 where
  pub keys : String → Option CryptoKey
  pub dispatched : List (String × String)
  pub draws : ℕ

abbrev pub M : Type 0 → Type 0
M A = Does Page A
