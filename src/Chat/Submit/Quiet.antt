-- ===== src/Chat/Submit/Quiet.antt =====
-- What encrypting a message leaves of the sent texts (encryptMessage).
use elektrine.Base.{◌+◌, ◌≡◌, refl, ap, ◌∙◌, String, List, arith, inl, inr}
use elektrine.Base.Effects.{Result, ok, err, Result-cases, run_with}
use elektrine.Chat.Types.{Device, Env}
use elektrine.Chat.Store.{M, Chat}
use elektrine.Chat.Devices.{stable_devices}
use elektrine.Chat.Trust.{ensure_devices_trusted}
use elektrine.Chat.Keys.{or_throw, ConversationKey, conversation_key_for_devices}
use elektrine.Chat.Send.{encrypt_with, encrypt_message, packages_for, wrap_conversation_key}
use elektrine.Chat.Send.Parts.{trust_all-OnlyTrust}

-- Nothing is sent, and no text is kept or dropped.
abbrev pub Quiet : Chat → Chat → Type 0
Quiet s t = (t.pushed ≡ s.pushed) × (t.sent_plaintexts ≡ s.sent_plaintexts)

run_with-Quiet :
    {A B : Type 0} (s : Chat) (r : Result A × Chat) (f : A → M B)
    → Quiet s r.1
    → ((a : A) (t : Chat) → Quiet s t → Quiet s (f a t).1)
    → Quiet s (run_with r f).1
run_with-Quiet s (ok a, t) f q h = h a t q
run_with-Quiet s (err e, t) f q h = q

Quiet-trans : (s t u : Chat) → Quiet s t → Quiet t u → Quiet s u
Quiet-trans s t u (p, q) (p', q') = (p' ∙ p, q' ∙ q)

trusted-Quiet :
    (env : Env) (devices : List Device) (s : Chat)
    → Quiet s (ensure_devices_trusted env devices s).1
unfolding ensure_devices_trusted
trusted-Quiet env devices s =
    let same = trust_all-OnlyTrust env (stable_devices env devices) s in
    (ap (λ t. t.pushed) same, ap (λ t. t.sent_plaintexts) same)

key-Quiet :
    (env : Env) (devices : List Device) (s : Chat)
    → Quiet s (conversation_key_for_devices env devices s).1
unfolding conversation_key_for_devices
key-Quiet env devices s = (ground arith, ground arith)

packages-Quiet :
    (env : Env) (k : ConversationKey) (devices : List Device) (s : Chat)
    → Quiet s (packages_for env k devices s).1
unfolding packages_for
packages-Quiet env k devices s = elim (Result-cases (wrap_conversation_key env k.raw_key devices)) [
  | inl (ps, e) ↦ (ground arith, ground arith)
  | inr (message, e) ↦ (ground arith, ground arith)
]

encrypt_with-Quiet :
    (env : Env) (k : ConversationKey) (devices : List Device) (content : String) (s : Chat)
    → Quiet s (encrypt_with env k devices content s).1
unfolding encrypt_with
encrypt_with-Quiet env k devices content s =
    let drawn = record s { drawn = s.drawn + 1 } in
    run_with-Quiet s
      (
        or_throw "OperationError" (env.aes_encrypt k.raw_key (env.random_bytes 12 s.drawn) content),
        drawn,
      )
      _ (refl, refl)
      (λ c t q.
        run_with-Quiet s (packages_for env k devices t) _
          (Quiet-trans s t (packages_for env k devices t).1 q (packages-Quiet env k devices t))
          (λ ps u r. r))

pub encrypt_message-Quiet :
    (env : Env) (content : String) (s : Chat) → Quiet s (encrypt_message env content s).1
unfolding encrypt_message
encrypt_message-Quiet env content s =
    run_with-Quiet s (ensure_devices_trusted env s.devices s) _ (trusted-Quiet env s.devices s)
      (λ x t q.
        run_with-Quiet s (conversation_key_for_devices env s.devices t) _
          (Quiet-trans s t (conversation_key_for_devices env s.devices t).1 q
            (key-Quiet env s.devices t))
          (λ k u r.
            Quiet-trans s u (encrypt_with env k s.devices content u).1 r
              (encrypt_with-Quiet env k s.devices content u)))
