-- ===== src/Mailbox/Wrap.antt =====
-- mailbox_private_crypto.js: bytes under a passphrase, or under the vault's key (wrapBytes, unwrapBytes and
-- theirs with the master key). The key of the vault's session is an argument, as `featureKey`
-- answers it.
use elektrine.Base.{
  ℕ, ◌+◌, String, Bool, Option, none, some, ◌||◌, ◌===◌, if◌then◌else◌, leb, concat,
}
use elektrine.Base.Effects.{Result, ok, bind_result, lift, ◌>>=◌}
use elektrine.Nerve.Crypto.{quote}
use elektrine.Mailbox.Types.{
  Bytes, CryptoKey, Context, ScryptParams, MasterPayload, Payload, Env, M,
}

abbrev pub master_mode : String
master_mode = "master"

abbrev pub verify_text : String
verify_text = "elektrine-private-mailbox-v1"

abbrev default_scrypt : ScryptParams
default_scrypt = record { n = 16384; r = 8; p = 1 }

abbrev pub is_valid_unlock_mode : String → Bool
is_valid_unlock_mode mode = mode === "account_password" || mode === "separate_passphrase"

abbrev pub is_known_unlock_mode : String → Bool
is_known_unlock_mode mode = is_valid_unlock_mode mode || mode === master_mode

abbrev pub key_wrap_aad_context : Option String → String → Context
key_wrap_aad_context unlock_mode kind = record {
  purpose = "elektrine-private-mailbox-key-wrap";
  version = 2;
  kind = kind;
  algorithm = "AES-GCM";
  kdf = "scrypt";
  unlock_mode = unlock_mode;
}

abbrev pub master_aad_context : String → Context
master_aad_context kind = record {
  purpose = "elektrine-private-mailbox-key-wrap";
  version = 2;
  kind = kind;
  algorithm = "AES-GCM";
  kdf = master_mode;
  unlock_mode = some master_mode;
}

-- `JSON.stringify` of a string or `null`.
unfoldable quote_option : Option String → String
unfolding quote
quote_option none = "null"
quote_option (some s) = quote s

-- `if (isValidUnlockMode(unlockMode)) payload.unlock_mode = unlockMode`
abbrev pub stated_mode : Option String → Option String
stated_mode none = none
stated_mode (some mode) = if is_valid_unlock_mode mode then some mode else none

module _ (env : Env) where
  -- `stableJson` of a context: its keys are in order. Of `undefined`, the encoded text is empty.
  unfoldable pub stable_json_context : Option Context → String
  unfolding quote quote_option
  stable_json_context none = ""
  stable_json_context (some c) = concat (concat "{\"algorithm\":" (quote c.algorithm)) (
      concat (concat ",\"kdf\":" (quote c.kdf)) (
        concat (concat ",\"kind\":" (quote c.kind)) (
          concat (concat ",\"purpose\":" (quote c.purpose)) (
            concat (concat ",\"unlock_mode\":" (quote_option c.unlock_mode))
              (concat ",\"version\":" (concat (env.decimal c.version) "}"))))))

  -- The associated data of `wrapParams`.
  unfoldable pub wrap_params : ℕ → Option Context → Option String
  unfolding stable_json_context
  wrap_params version context = if leb 2 version then some (stable_json_context context) else none

  abbrev random_bytes : ℕ → M Bytes
  random_bytes length s = (ok (env.random s.draws length), record s { draws = s.draws + 1 })

  abbrev pub wrapped_payload : (salt iv : Bytes) → Option String → String → Bytes → Payload
  wrapped_payload salt iv unlock_mode kind ciphertext = record {
    version = 2;
    algorithm = "AES-GCM";
    kdf = "scrypt";
    unlock_mode = stated_mode unlock_mode;
    aad_context = some (key_wrap_aad_context unlock_mode kind);
    iv = env.btoa iv;
    ciphertext = env.btoa ciphertext;
    params = default_scrypt;
    salt = env.btoa salt;
  }

  -- `wrapBytes`, after its two draws.
  abbrev pub seal : (salt iv bytes : Bytes) → String → Option String → String → Result Payload
  seal salt iv bytes passphrase unlock_mode kind =
      bind_result (env.scrypt passphrase salt default_scrypt) (λ key.
        bind_result
          (env.encrypt key iv
            (some (stable_json_context (some (key_wrap_aad_context unlock_mode kind)))) bytes)
          (λ ciphertext. ok (wrapped_payload salt iv unlock_mode kind ciphertext)))

  unfoldable pub wrap_bytes : Bytes → String → Option String → String → M Payload
  unfolding stable_json_context
  wrap_bytes bytes passphrase unlock_mode kind = do
    salt ← random_bytes 16
    iv ← random_bytes 12
    lift (seal salt iv bytes passphrase unlock_mode kind)

  unfoldable pub unwrap_bytes : Payload → String → Result Bytes
  unfolding wrap_params
  unwrap_bytes payload passphrase = bind_result (env.atob payload.salt) (λ salt.
      bind_result (env.atob payload.iv) (λ iv.
        bind_result (env.atob payload.ciphertext) (λ ciphertext.
          bind_result (env.scrypt passphrase salt payload.params) (λ key.
            env.decrypt key iv (wrap_params payload.version payload.aad_context) ciphertext))))

  abbrev pub master_payload : (iv : Bytes) → String → Bytes → MasterPayload
  master_payload iv kind ciphertext = record {
    version = 2;
    algorithm = "AES-GCM";
    kdf = master_mode;
    unlock_mode = some master_mode;
    aad_context = some (master_aad_context kind);
    iv = env.btoa iv;
    ciphertext = env.btoa ciphertext;
  }

  abbrev pub seal_with_master : CryptoKey → (iv bytes : Bytes) → String → Result MasterPayload
  seal_with_master key iv bytes kind =
      bind_result
        (env.encrypt key iv (some (stable_json_context (some (master_aad_context kind)))) bytes)
        (λ ciphertext. ok (master_payload iv kind ciphertext))

  unfoldable pub wrap_bytes_with_master_key : Result CryptoKey → Bytes → String → M MasterPayload
  unfolding stable_json_context
  wrap_bytes_with_master_key email_key bytes kind = do
    key ← lift email_key
    iv ← random_bytes 12
    lift (seal_with_master key iv bytes kind)

  unfoldable pub unwrap_bytes_with_master_key : Result CryptoKey → MasterPayload → Result Bytes
  unfolding wrap_params
  unwrap_bytes_with_master_key email_key payload = bind_result email_key (λ key.
      bind_result (env.atob payload.iv) (λ iv.
        bind_result (env.atob payload.ciphertext) (λ ciphertext.
          env.decrypt key iv (wrap_params payload.version payload.aad_context) ciphertext)))
