-- ===== src/Nerve/Types.antt =====
-- The data of the extension's background worker (clients/nerve-extension/background.js, lib/*.js),
-- and what it calls and does not implement.
use elektrine.Base.{ℕ, String, Bool, List, Option}
pub use elektrine.Base.Effects.{Result, ok, err}

-- `getSettings`'s answer; an absent string is empty, an absent theme is `none`.
pub record Settings : Type 0 where
  pub server_url : String
  pub api_token : String
  pub theme : Option String

-- A value that `encryptValue` built, or what the server holds in its place.
pub record Payload : Type 0 where
  pub algorithm : String
  pub iv : Option String
  pub ciphertext : Option String

-- An entry as the server lists it.
pub record Entry : Type 0 where
  pub id : ℕ
  pub title : Option String
  pub login_username : Option String
  pub website : Option String
  pub encrypted_metadata : Option Payload
  pub encrypted_password : Option Payload
  pub encrypted_notes : Option Payload

-- The answer to `listEntries`.
pub record Listing : Type 0 where
  pub entries : List Entry
  pub theme : Option String
  pub master_configured : Bool
  pub master_wrapped_dek : Option String

pub record Metadata : Type 0 where
  pub title : String
  pub login_username : String
  pub website : String

-- The attributes that `createEntry` and `updateEntry` send.
pub record Attrs : Type 0 where
  pub title : String
  pub login_username : String
  pub website : String
  pub encrypted_metadata : Payload
  pub encrypted_password : Payload

pub record PendingSave : Type 0 where
  pub submit_url : String
  pub website : String
  pub username : String
  pub password : String
  pub page_title : String
  pub recorded_at : ℕ

pub record StagedFill : Type 0 where
  pub entry_id : ℕ
  pub page_url : String
  pub website : String
  pub staged_at : ℕ

-- What AES-GCM authenticates beside the ciphertext.
pub data AssociatedData : Type 0 where
  metadata : AssociatedData
  entry_field : (field title login_username website : String) → AssociatedData

-- The parts of a parsed URL that the worker reads.
pub record Url : Type 0 where
  pub protocol : String
  pub hostname : String
  pub pathname : String
  pub search : String
  pub origin : String

-- The platform and the server: `new URL`, `toLowerCase`, `localeCompare`, `chrome.runtime.getURL`,
-- the tabs that `chrome.tabs.query` answers with their addresses, the HTTP calls of
-- lib/api.js, `crypto.subtle`, `JSON` on the metadata.
-- `encrypt` gives the fresh IV and the ciphertext, both in base64, as `decrypt` takes them. An `err` is a thrown error's message.
pub record Env : Type 0 where
  pub parse_url : String → Option Url
  pub lower : String → String
  pub locale_lt : String → String → Bool
  pub extension_origin : String
  pub page_tabs : List (Option ℕ × String)
  pub list_entries : Settings → Result Listing
  pub get_entry : Settings → ℕ → Result Entry
  pub create_entry : Settings → Attrs → Result Entry
  pub update_entry : Settings → ℕ → Attrs → Result Entry
  pub unwrap : Option String → String → Result String
  pub derive : String → String → Result String
  pub encrypt : (plaintext key associated : String) → String × String
  pub decrypt : (iv ciphertext key associated : String) → Result String
  pub stringify : Metadata → String
  pub parse_metadata : String → Result Metadata
