-- ===== src/Mailbox/Tests.antt =====
-- A mailbox on a toy platform: bytes are written in unary, and a ciphertext starts with a mark of
-- its key.
use elektrine.Base.{
  ℕ, ◌≡◌, refl, sym, ap, ◌∙◌, String, false, Option, some, none, List, [], ◌∷◌, ◌==◌, ◌===◌,
  if◌then◌else◌, same_number,
}
use elektrine.Base.Unary.{unary, encode, decode_char, decode, decode-encode}
use elektrine.Base.Effects.{Result, ok, err, ok-inj}
use elektrine.Vault.Types.{encryption, Kind, holding, Vault}
use elektrine.Vault.Session.{unlock, step, run, load_session, derive}
use elektrine.Vault.Keys.{IsCurrent, step-IsCurrent}
use elektrine.Vault
use elektrine.Mailbox.Types.{Bytes, CryptoKey, Payload, MasterPayload, Env, Page}
use elektrine.Mailbox.Wrap.{
  wrapped_payload, master_payload, wrap_params, verify_text, wrap_bytes, unwrap_bytes,
  wrap_bytes_with_master_key,
}
use elektrine.Mailbox.Unlock.{get_stored_private_key, unlock_mailbox, unlock_mailbox_with_master}
use elektrine.Mailbox.Laws.{Restores, wrap_bytes-unlock_mailbox, unlock_mailbox-refused}
use elektrine.Mailbox.Master.{master_email_key, IsIdle, wrap_with_master-unlock}

mark : CryptoKey → ℕ
mark k = if k === "right" then 1 else 2

opened_with : ℕ → Bytes → Result Bytes
opened_with m [] = err "OperationError"
opened_with m (b ∷ bytes) = if b == m then ok bytes else err "OperationError"

opened-mark : (m : ℕ) (bytes c : Bytes) → ok (m ∷ bytes) ≡ ok c → opened_with m c ≡ ok bytes
unfolding opened_with
opened-mark m bytes c h =
    ap (opened_with m) (sym (ok-inj (m ∷ bytes) c h)) ∙ rw (same_number m) refl

decoded : Option Bytes → Result Bytes
decoded none = err "InvalidCharacterError"
decoded (some bytes) = ok bytes

shown : Bytes → String
shown [] = ""
shown (b ∷ bytes) = verify_text

abbrev demo : Env
demo = record {
  btoa = encode;
  atob = λ text. decoded (decode text 0);
  encode = λ text. 1 ∷ [];
  decode = shown;
  decimal = λ n. "2";
  random = λ draw length. draw ∷ [];
  scrypt = λ passphrase salt params. ok passphrase;
  encrypt = λ k iv aad bytes. ok (mark k ∷ bytes);
  decrypt = λ k iv aad ciphertext. opened_with (mark k) ciphertext;
  import_private_key = λ bytes. ok "private";
  rsa_decrypt = λ k bytes. ok bytes;
  import_content_key = λ bytes. ok "content";
  parse_json = λ text. ok text;
}

demo-Restores : Restores demo
unfolding shown decoded
demo-Restores = record {
  codec = λ bytes. ap decoded (decode-encode bytes);
  cipher = λ k iv bytes c aad h. opened-mark (mark k) bytes c h;
  texts = refl;
}

abbrev page : Page
page = record { keys = λ id. none; dispatched = []; draws = 0 }

abbrev mode : Option String
mode = some "separate_passphrase"

abbrev wrapped : Payload
wrapped = wrapped_payload demo (0 ∷ []) (1 ∷ []) mode "private_key" (1 ∷ 5 ∷ [])

abbrev verifier : Payload
verifier = wrapped_payload demo (0 ∷ []) (1 ∷ []) mode "verifier" (1 ∷ 1 ∷ [])

wrap_bytes_test :
    ((wrap_bytes demo (5 ∷ []) "right" mode "private_key" page).0 ≡ ok wrapped)
    × ((wrap_bytes demo (demo.encode verify_text) "right" mode "verifier" page).0 ≡ ok verifier)
unfolding wrap_bytes mark
wrap_bytes_test = (refl, refl)

wrap_bytes-unlock_mailbox_example :
    ((unlock_mailbox demo "7" wrapped verifier "right" page).0 ≡ ok tt)
    × (get_stored_private_key "7" (unlock_mailbox demo "7" wrapped verifier "right" page).1
        ≡ some "private")
wrap_bytes-unlock_mailbox_example =
    wrap_bytes-unlock_mailbox demo demo-Restores "7" "right" (5 ∷ []) mode page page page wrapped
      verifier "private" wrap_bytes_test.0 wrap_bytes_test.1 refl refl

wrong_passphrase :
    (bytes : Bytes)
    → unwrap_bytes demo verifier "wrong" ≡ ok bytes
    → (demo.decode bytes === verify_text) ≡ false
unfolding unwrap_bytes wrap_params mark opened_with decoded decode decode_char encode unary
wrong_passphrase bytes h = cc

unlock_mailbox-refused_example :
    (e : String) × (unlock_mailbox demo "7" wrapped verifier "wrong" page ≡ (err e, page))
unlock_mailbox-refused_example =
    unlock_mailbox-refused demo "7" "wrong" wrapped verifier page wrong_passphrase

key_of : Kind → List ℕ → String → Option String
key_of kind mdk info = some "right"

abbrev vault_env : Vault.Types.Env
vault_env = record { btoa = encode; atob = λ text. none; hkdf = key_of; accepts = λ value. false }

abbrev tab : Vault
tab = load_session vault_env (holding none)

abbrev unlocked : Vault
unlocked = step vault_env (unlock (9 ∷ [])) tab

tab-IsCurrent : IsCurrent vault_env tab
unfolding load_session
tab-IsCurrent = record { cached = λ kind feature k e. cc; underway = tt }

tab-idle : tab.pending ≡ []
unfolding load_session
tab-idle = refl

unlocked-IsIdle : IsIdle vault_env (9 ∷ []) unlocked
unfolding step load_session
unlocked-IsIdle = record {
  current = step-IsCurrent vault_env (unlock (9 ∷ [])) tab tab-IsCurrent (λ e. tab-idle);
  idle = refl;
  unlocked = refl;
}

abbrev master_wrapped : MasterPayload
master_wrapped = master_payload demo (0 ∷ []) "private_key" (1 ∷ 5 ∷ [])

abbrev master_verifier : MasterPayload
master_verifier = master_payload demo (0 ∷ []) "verifier" (1 ∷ 1 ∷ [])

master_test :
    ((wrap_bytes_with_master_key demo
        (master_email_key vault_env unlocked)
        (5 ∷ [])
        "private_key"
        page).0
      ≡ ok master_wrapped)
    × ((wrap_bytes_with_master_key demo
          (master_email_key vault_env unlocked)
          (demo.encode verify_text)
          "verifier"
          page).0
        ≡ ok master_verifier)
unfolding wrap_bytes_with_master_key master_email_key run step load_session derive mark key_of
master_test = (refl, refl)

wrap_with_master-unlock_example :
    ((unlock_mailbox_with_master demo
        (master_email_key vault_env unlocked)
        "7"
        master_wrapped
        master_verifier
        page).0
      ≡ ok tt)
    × (get_stored_private_key "7"
          (unlock_mailbox_with_master demo
            (master_email_key vault_env unlocked)
            "7"
            master_wrapped
            master_verifier
            page).1
        ≡ some "private")
unfolding derive key_of
wrap_with_master-unlock_example =
    wrap_with_master-unlock demo demo-Restores vault_env (9 ∷ []) "right" unlocked unlocked "7"
      (5 ∷ []) page page page master_wrapped master_verifier "private" unlocked-IsIdle
      unlocked-IsIdle refl master_test.0 master_test.1 refl refl
