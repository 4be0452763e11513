-- ===== src/Vault/Tests.antt =====
-- The vault's session on concrete events.
use elektrine.Base.{
  ℕ, zero, suc, false, ◌≡◌, refl, String, true, Option, none, some, List, [], ◌∷◌, truthy,
}
use elektrine.Vault.Types.{Kind, encryption, hmac, CryptoKey, Env, holding, key, rejected, Vault}
use elektrine.Vault.Session.{
  unlock, lock, feature_key, settle, subscribe, reload, step, run, load_session, read_stored_mdk,
}
use elektrine.Vault.Keys.{IsCurrent, step-IsCurrent, unlock-settle_stale}
use elektrine.Base.Unary.{unary, encode, decode, decode-encode}
use elektrine.Vault.Refinement.{is_key, Works, IsSynced, key_after, run-refines}

abbrev ones : ℕ → List ℕ
ones zero = []
ones (suc n) = 1 ∷ ones n

abbrev key_of : Kind → List ℕ → String → Option CryptoKey
key_of kind [] info = none
key_of kind (b ∷ bytes) info = some info

-- Thirty-two ones and their base64.
abbrev demo : Env
demo = record {
  btoa = λ bytes. "AQEBAQEBAQEBAQEBAQEBAQEBAQEBAQEBAQEBAQEBAQE=";
  atob = λ text. some (ones 32);
  hkdf = key_of;
  accepts = λ value. true;
}

abbrev new_tab : Vault
new_tab = load_session demo (holding none)

abbrev unlocked : Vault
unlocked = step demo (unlock (ones 32)) (step demo (subscribe 1) new_tab)

new_tab-IsCurrent : IsCurrent demo new_tab
unfolding load_session
new_tab-IsCurrent = record { cached = λ kind feature k e. cc; underway = tt }

subscribed-idle : (step demo (subscribe 1) new_tab).pending ≡ []
unfolding step load_session
subscribed-idle = refl

unlocked-IsCurrent : IsCurrent demo unlocked
unlocked-IsCurrent =
    step-IsCurrent demo (unlock (ones 32)) (step demo (subscribe 1) new_tab)
      (step-IsCurrent demo (subscribe 1) new_tab new_tab-IsCurrent (λ e. cc)) (λ e. subscribed-idle)

-- A listener hears of the unlock and of the lock; then a key is refused.
session_test :
    ((run demo (lock ∷ feature_key hmac "nerve" ∷ []) unlocked).notified
      ≡ (1, true) ∷ (1, false) ∷ [])
    × ((run demo (lock ∷ feature_key hmac "nerve" ∷ []) unlocked).answers
        ≡ record { kind = hmac; feature = "nerve"; outcome = rejected "vault-locked" } ∷ [])
unfolding run step
session_test = (refl, refl)

step-IsCurrent_example : IsCurrent demo (step demo (feature_key encryption "email") unlocked)
step-IsCurrent_example =
    step-IsCurrent demo (feature_key encryption "email") unlocked unlocked-IsCurrent (λ e. cc)

unlock-settle_stale_example :
    (run demo
      (unlock (ones 32)
        ∷ feature_key hmac "kairo"
        ∷ unlock (ones 2)
        ∷ settle 0
        ∷ feature_key hmac "kairo"
        ∷ [])
      new_tab).answers
    ≡ record { kind = hmac; feature = "kairo"; outcome = key (some "elektrine-vault:kairo:hmac") }
      ∷ record { kind = hmac; feature = "kairo"; outcome = key (some "elektrine-vault:kairo:hmac") }
      ∷ []
unfolding step
unlock-settle_stale_example =
    unlock-settle_stale demo hmac "kairo" (ones 32) (ones 2) "elektrine-vault:kairo:hmac" new_tab
      refl refl

-- A platform whose base64 is unary.
abbrev unary_platform : Env
unary_platform = record {
  btoa = encode;
  atob = λ text. decode text 0;
  hkdf = key_of;
  accepts = λ value. true;
}

unary-nonempty : (n : ℕ) (rest : String) → truthy (unary n rest) ≡ true
unfolding unary
unary-nonempty zero rest = refl
unary-nonempty (suc n) rest = refl

encode-nonempty : (mdk : List ℕ) → is_key mdk ≡ true → truthy (encode mdk) ≡ true
unfolding encode
encode-nonempty [] h = h
encode-nonempty (n ∷ mdk) h = unary-nonempty n (encode mdk)

unary_platform-Works : Works unary_platform
unary_platform-Works = record {
  codec = λ mdk h. decode-encode mdk;
  nonempty = encode-nonempty;
  fits = λ mdk h. refl;
}

unary_tab-IsSynced : IsSynced unary_platform (load_session unary_platform (holding none))
unfolding load_session read_stored_mdk
unary_tab-IsSynced = record { stored = refl; size = λ mdk h. cc }

key_after_test : key_after (unlock (ones 32) ∷ reload ∷ []) none ≡ some (ones 32)
unfolding key_after
key_after_test = refl

run-refines_example :
    (run unary_platform
      (unlock (ones 32) ∷ feature_key hmac "nerve" ∷ reload ∷ settle 0 ∷ reload ∷ [])
      (load_session unary_platform (holding none))).mdk
    ≡ key_after
        (unlock (ones 32) ∷ feature_key hmac "nerve" ∷ reload ∷ settle 0 ∷ reload ∷ [])
        (load_session unary_platform (holding none)).mdk
run-refines_example =
    run-refines unary_platform unary_platform-Works
      (unlock (ones 32) ∷ feature_key hmac "nerve" ∷ reload ∷ settle 0 ∷ reload ∷ [])
      (load_session unary_platform (holding none)) refl unary_tab-IsSynced
