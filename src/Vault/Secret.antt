-- ===== src/Vault/Secret.antt =====
-- vault_crypto.js: bytes under a secret, and values under the key of a feature. The random bytes are arguments.
use elektrine.Base.{ℕ, String, ◌≡◌, sym, ap, ◌∙◌, Option, none, List}
use elektrine.Base.Effects.{Result, ok, bind_result, bind_result-eq-ok, ok-inj}
use elektrine.Vault.Types.{CryptoKey}

abbrev Bytes : Type 0
Bytes = List ℕ

-- What `wrapWithSecret` and `encryptValue` make; the iterations and the salt are those of the first.
pub record Wrapped : Type 0 where
  version : ℕ
  algorithm : String
  kdf : String
  iterations : ℕ
  salt : String
  iv : String
  ciphertext : String

pub record Value : Type 0 where
  version : ℕ
  algorithm : String
  iv : String
  ciphertext : String

-- The platform: base64, UTF-8, PBKDF2 with SHA-256, and AES-GCM with the text of the associated data, where there
-- is any. An `err` is the message of what is thrown.
pub record Platform : Type 0 where
  btoa : Bytes → String
  atob : String → Result Bytes
  encode : String → Bytes
  decode : Bytes → String
  pbkdf2 : (secret : String) (salt : Bytes) (iterations : ℕ) → Result CryptoKey
  encrypt : CryptoKey → (iv : Bytes) (aad : Option String) → Bytes → Result Bytes
  decrypt : CryptoKey → (iv : Bytes) (aad : Option String) → Bytes → Result Bytes

abbrev pbkdf2_iterations : ℕ
pbkdf2_iterations = 600000

module _ (env : Platform) where
  abbrev wrapped_with : (salt iv ciphertext : Bytes) → Wrapped
  wrapped_with salt iv ciphertext = record {
    version = 2;
    algorithm = "AES-GCM";
    kdf = "PBKDF2-SHA256";
    iterations = pbkdf2_iterations;
    salt = env.btoa salt;
    iv = env.btoa iv;
    ciphertext = env.btoa ciphertext;
  }

  unfoldable wrap_with_secret : (salt iv plaintext : Bytes) → String → Result Wrapped
  wrap_with_secret salt iv plaintext secret =
      bind_result (env.pbkdf2 secret salt pbkdf2_iterations) (λ key.
        bind_result (env.encrypt key iv none plaintext)
          (λ ciphertext. ok (wrapped_with salt iv ciphertext)))

  unfoldable unwrap_with_secret : Wrapped → String → Result Bytes
  unwrap_with_secret payload secret = bind_result (env.atob payload.salt) (λ salt.
      bind_result (env.atob payload.iv) (λ iv.
        bind_result (env.atob payload.ciphertext) (λ ciphertext.
          bind_result (env.pbkdf2 secret salt payload.iterations)
            (λ key. env.decrypt key iv none ciphertext))))

  abbrev value_of : (iv ciphertext : Bytes) → Value
  value_of iv ciphertext = record {
    version = 2;
    algorithm = "AES-GCM";
    iv = env.btoa iv;
    ciphertext = env.btoa ciphertext;
  }

  -- The associated data is the text that `stableJson` makes of it.
  unfoldable encrypt_feature_value :
      (iv : Bytes) → String → CryptoKey → Option String → Result Value
  encrypt_feature_value iv plaintext key aad =
      bind_result (env.encrypt key iv aad (env.encode plaintext))
        (λ ciphertext. ok (value_of iv ciphertext))

  unfoldable decrypt_feature_value : Value → CryptoKey → Option String → Result String
  decrypt_feature_value payload key aad = bind_result (env.atob payload.iv) (λ iv.
      bind_result (env.atob payload.ciphertext) (λ ciphertext.
        bind_result (env.decrypt key iv aad ciphertext) (λ plaintext. ok (env.decode plaintext))))

  -- Base64, AES-GCM and UTF-8 give back what they were given.
  record Restores : Type 0 where
    codec : (bytes : Bytes) → env.atob (env.btoa bytes) ≡ ok bytes
    cipher :
        (key : CryptoKey) (iv bytes ciphertext : Bytes) (aad : Option String)
        → env.encrypt key iv aad bytes ≡ ok ciphertext
        → env.decrypt key iv aad ciphertext ≡ ok bytes
    texts : (text : String) → env.decode (env.encode text) ≡ text

  module _ (restores : Restores) where
    wrapped_with-unwrap :
        (salt iv bytes ciphertext : Bytes) (secret : String) (key : CryptoKey)
        → env.pbkdf2 secret salt pbkdf2_iterations ≡ ok key
        → env.encrypt key iv none bytes ≡ ok ciphertext
        → unwrap_with_secret (wrapped_with salt iv ciphertext) secret ≡ ok bytes
    unfolding unwrap_with_secret
    wrapped_with-unwrap salt iv bytes ciphertext secret key e f = rw (restores.codec salt) (
        rw (restores.codec iv)
          (rw (restores.codec ciphertext) (rw e (restores.cipher key iv bytes ciphertext none f))))

    -- What is wrapped with a secret is unwrapped with it.
    wrap-unwrap_with_secret :
        (salt iv bytes : Bytes) (secret : String) (w : Wrapped)
        → wrap_with_secret salt iv bytes secret ≡ ok w
        → unwrap_with_secret w secret ≡ ok bytes
    unfolding wrap_with_secret
    wrap-unwrap_with_secret salt iv bytes secret w h =
        let (key, e, rest) = bind_result-eq-ok _ _ h in
        let (ciphertext, f, made) = bind_result-eq-ok _ _ rest in
        ap (λ x. unwrap_with_secret x secret)
          (sym (ok-inj (wrapped_with salt iv ciphertext) w made))
        ∙ wrapped_with-unwrap salt iv bytes ciphertext secret key e f
