-- ===== src/Chat/Send/Parts.antt =====
-- What a message that was encrypted is made of.
use mathlib.Core.Path.{subst}
use elektrine.Base.{
  ◌≡◌, refl, ap, ◌∙◌, String, List, [], ◌∷◌, truthy, ◌===◌, inl, inr, Bool-cases, All,
}
use elektrine.Base.Effects.{Result, ok, Result-cases, run_with-eq-ok}
use elektrine.Chat.Types.{Device, Message, Env}
use elektrine.Chat.Store.{Chat}
use elektrine.Chat.Devices.{stable_devices}
use elektrine.Chat.Trust.{
  ensure_device_trusted, trust_all, ensure_devices_trusted, compare_trust,
  verified_device_fingerprint, device_trust_storage_key,
}
use elektrine.Chat.Trust.Laws.{Passes, trusted_at, loaded, ensure_devices_trusted-Passes}
use elektrine.Chat.Keys.{ConversationKey, conversation_key_for_devices}
use elektrine.Chat.Send.{encrypt_with, encrypt_message}

-- The parts of a message that went out from the state `s`: the key, and the state in which the
-- message was encrypted with it.
pub record Parts (env : Env) (content : String) (s t : Chat) (m : Message) : Type 0 where
  pub key : ConversationKey
  pub trusting : Chat
  pub keyed : Chat
  pub passed : ensure_devices_trusted env s.devices s ≡ (ok tt, trusting)
  pub chosen : conversation_key_for_devices env s.devices trusting ≡ (ok key, keyed)
  pub encrypted : encrypt_with env key s.devices content keyed ≡ (ok m, t)

pair_of : {A B : Type 0} (r : Result A × B) (a : A) → r.0 ≡ ok a → r ≡ (ok a, r.1)
pair_of (x, y) a e = rw e refl

pub encrypt_message-Parts :
    (env : Env) (content : String) (s t : Chat) (m : Message)
    → encrypt_message env content s ≡ (ok m, t)
    → Parts env content s t m
unfolding encrypt_message
encrypt_message-Parts env content s t m h =
    let (u, passed, h') = run_with-eq-ok (ensure_devices_trusted env s.devices s) _ h in
    let trusting = (ensure_devices_trusted env s.devices s).1 in
    let (k, chosen, h'') =
      run_with-eq-ok (conversation_key_for_devices env s.devices trusting) _ h' in
    record {
      key = k;
      trusting = trusting;
      keyed = (conversation_key_for_devices env s.devices trusting).1;
      passed = pair_of (ensure_devices_trusted env s.devices s) u passed;
      chosen = pair_of (conversation_key_for_devices env s.devices trusting) k chosen;
      encrypted = h'';
    }

-- If a message is encrypted, then every device of the conversation states the fingerprint of its own
-- keys or none, with a signature that is valid if it has one and a key for it, and has the same
-- fingerprint that this browser trusted before, if it trusted one.
pub encrypt_message-Passes :
    (env : Env) (content : String) (s t : Chat) (m : Message)
    → encrypt_message env content s ≡ (ok m, t)
    → All (Passes env s) (stable_devices env s.devices)
encrypt_message-Passes env content s t m h =
    let parts = encrypt_message-Parts env content s t m h in
    ensure_devices_trusted-Passes env s.devices s (ap (λ r. r.0) parts.passed)

-- Nothing but the trusted fingerprints has changed.
abbrev pub OnlyTrust : Chat → Chat → Type 0
OnlyTrust s t = t ≡ record s { trust = t.trust }

compare-OnlyTrust :
    (key fingerprint trusted : String) (s : Chat)
    → OnlyTrust s (compare_trust key fingerprint trusted s).1
compare-OnlyTrust key fingerprint trusted s = elim (Bool-cases (truthy trusted)) [
  | inl e ↦ elim (Bool-cases (trusted === fingerprint)) [
    | inl f ↦ rw (e, f) refl
    | inr f ↦ rw (e, f) refl
  ]
  | inr e ↦ rw e refl
]

ensure-OnlyTrust :
    (env : Env) (d : Device) (s : Chat) → OnlyTrust s (ensure_device_trusted env d s).1
unfolding ensure_device_trusted
ensure-OnlyTrust env d s = elim (Result-cases (verified_device_fingerprint env d)) [
  | inl (fingerprint, e) ↦ rw e (
      compare-OnlyTrust (device_trust_storage_key env.decimal d) fingerprint
        (trusted_at (device_trust_storage_key env.decimal d) s)
        (loaded (device_trust_storage_key env.decimal d) s))
  | inr (message, e) ↦ rw e refl
]

OnlyTrust-trans : (s t u : Chat) → OnlyTrust s t → OnlyTrust t u → OnlyTrust s u
OnlyTrust-trans s t u p q = q ∙ ap {A = Chat} (λ r. record r { trust = u.trust }) p

pub trust_all-OnlyTrust :
    (env : Env) (ds : List Device) (s : Chat) → OnlyTrust s (trust_all env ds s).1
unfolding trust_all
trust_all-OnlyTrust env [] s = refl
trust_all-OnlyTrust env (d ∷ ds) s =
    OnlyTrust-trans s (ensure_device_trusted env d s).1 _ (ensure-OnlyTrust env d s)
      (trust_all-OnlyTrust env ds (ensure_device_trusted env d s).1)

pub trusting-OnlyTrust :
    (env : Env) (s t : Chat) → ensure_devices_trusted env s.devices s ≡ (ok tt, t) → OnlyTrust s t
unfolding ensure_devices_trusted
trusting-OnlyTrust env s t e =
    let same = trust_all-OnlyTrust env (stable_devices env s.devices) s in
    subst (OnlyTrust s) (ap (λ r. r.1) e) same
