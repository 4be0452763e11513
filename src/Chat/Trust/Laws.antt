-- ===== src/Chat/Trust/Laws.antt =====
-- The trusted devices after a check (ensureDevicesTrusted).
use elektrine.Base.{
  ◌≡◌, refl, sym, ap, ◌∙◌, String, true, List, [], ◌∷◌, ◌===◌, truthy, text_of, All, arith, eq_iff,
  inl, inr, Bool-cases,
}
use elektrine.Base.Effects.{ok-inj, Result, ok, err, Result-cases}
use elektrine.Chat.Types.{Device, Env}
use elektrine.Chat.Store.{Slot, Chat, load_secure_json, at_text}
use elektrine.Chat.Devices.{device_fingerprint, stable_devices}
use elektrine.Chat.Trust.{
  device_trust_storage_key, verified_device_fingerprint, compare_trust, ensure_device_trusted,
  trust_all, ensure_devices_trusted, both,
}
use elektrine.Chat.Trust.Stated.{IsStated, verified-IsStated}

-- The fingerprint that a browser trusts under a storage key; empty where there is none.
abbrev pub trusted_at : String → Chat → String
trusted_at k s = text_of (load_secure_json (s.trust k)).0

load-load :
    (slot : Slot String)
    → (load_secure_json (load_secure_json slot).1).0 ≡ (load_secure_json slot).0
unfolding load_secure_json
load-load slot = ground arith

abbrev pub loaded : String → Chat → Chat
loaded key s = record s { trust = at_text key (load_secure_json (s.trust key)).1 s.trust }

trusted_at-loaded : (key k : String) (s : Chat) → trusted_at k (loaded key s) ≡ trusted_at k s
trusted_at-loaded key k s = elim (Bool-cases (key === k)) [
  | inl e ↦ rw e (rw ((eq_iff key k).0 e) (rw (load-load (s.trust k)) refl))
  | inr e ↦ rw e refl
]

compare-keeps :
    (key fingerprint trusted : String) (s : Chat) (k : String)
    → trusted ≡ trusted_at key s
    → truthy (trusted_at k s) ≡ true
    → trusted_at k (compare_trust key fingerprint trusted s).1 ≡ trusted_at k s
compare-keeps key fingerprint trusted s k p h = elim (Bool-cases (truthy trusted)) [
  | inl e ↦ elim (Bool-cases (trusted === fingerprint)) [
    | inl f ↦ rw (e, f) refl
    | inr f ↦ rw (e, f) refl
  ]
  | inr e ↦ elim (Bool-cases (key === k)) [
    | inl f ↦ ground (arith, p, e, h, ap (λ j. truthy (trusted_at j s)) ((eq_iff key k).0 f))
    | inr f ↦ rw e (rw f refl)
  ]
]

-- Trusting one device changes no fingerprint that is trusted already.
ensure-keeps :
    (env : Env) (d : Device) (s : Chat) (k : String)
    → truthy (trusted_at k s) ≡ true
    → trusted_at k (ensure_device_trusted env d s).1 ≡ trusted_at k s
unfolding ensure_device_trusted
ensure-keeps env d s k h = elim (Result-cases (verified_device_fingerprint env d)) [
  | inl (fingerprint, e) ↦
      let key = device_trust_storage_key env.decimal d in
      rw e (
        compare-keeps key fingerprint (trusted_at key s) (loaded key s) k
          (sym (trusted_at-loaded key key s)) (ap truthy (trusted_at-loaded key k s) ∙ h)
        ∙ trusted_at-loaded key k s)
  | inr (message, e) ↦ rw e refl
]

compare-checks :
    (key fingerprint trusted : String) (s : Chat)
    → (compare_trust key fingerprint trusted s).0 ≡ ok tt
    → truthy trusted ≡ true
    → trusted ≡ fingerprint
compare-checks key fingerprint trusted s e h = elim (Bool-cases (trusted === fingerprint)) [
  | inl f ↦ (eq_iff trusted fingerprint).0 f
  | inr f ↦ absurd_case (rw (h, f) at e)
]
  where
    absurd_case :
        ◌≡◌ {A = Result (Unit {0})} (err "untrusted_device") (ok tt) → trusted ≡ fingerprint
    absurd_case q = cc

-- Where one device passes, its fingerprint is the one that was trusted, if one was.
ensure-checks :
    (env : Env) (d : Device) (s : Chat)
    → (ensure_device_trusted env d s).0 ≡ ok tt
    → truthy (trusted_at (device_trust_storage_key env.decimal d) s) ≡ true
    → verified_device_fingerprint env d ≡ ok (trusted_at (device_trust_storage_key env.decimal d) s)
unfolding ensure_device_trusted
ensure-checks env d s e h = elim (Result-cases (verified_device_fingerprint env d)) [
  | inl (fingerprint, p) ↦
      let key = device_trust_storage_key env.decimal d in
      p
      ∙ ap ok (sym (compare-checks key fingerprint (trusted_at key s) (loaded key s) (rw p at e) h))
  | inr (message, p) ↦ refused message (rw p at e)
]
  where
    refused :
        (message : String)
        → ◌≡◌ {A = Result (Unit {0})} (err message) (ok tt)
        → verified_device_fingerprint env d
          ≡ ok (trusted_at (device_trust_storage_key env.decimal d) s)
    refused message q = cc

ensure-verified :
    (env : Env) (d : Device) (s : Chat)
    → (ensure_device_trusted env d s).0 ≡ ok tt
    → (f : String) × (verified_device_fingerprint env d ≡ ok f)
unfolding ensure_device_trusted
ensure-verified env d s e = elim (Result-cases (verified_device_fingerprint env d)) [
  | inl (f, p) ↦ (f, p)
  | inr (message, p) ↦ refused message (rw p at e)
]
  where
    refused :
        (message : String)
        → ◌≡◌ {A = Result (Unit {0})} (err message) (ok tt)
        → (f : String) × (verified_device_fingerprint env d ≡ ok f)
    refused message q = cc

both-ok : (r q : Result (Unit {0})) → both r q ≡ ok tt → (r ≡ ok tt) × (q ≡ ok tt)
both-ok (ok tt) q h = (refl, h)
both-ok (err e) q h = cc

-- What a device has to pass: what it states is so, and its fingerprint is the one that was trusted
-- before, if one was.
abbrev pub Passes : Env → Chat → Device → Type 0
Passes env s d =
    IsStated env d
    × (truthy (trusted_at (device_trust_storage_key env.decimal d) s) ≡ true
        → trusted_at (device_trust_storage_key env.decimal d) s ≡ device_fingerprint env d)

trust_all-Passes :
    (env : Env) (ds : List Device) (s t : Chat)
    → ((k : String) → truthy (trusted_at k s) ≡ true → trusted_at k t ≡ trusted_at k s)
    → (trust_all env ds t).0 ≡ ok tt
    → All (Passes env s) ds
unfolding trust_all
trust_all-Passes env [] s t same e = tt
trust_all-Passes env (d ∷ ds) s t same e =
    let (first, rest) =
      both-ok (ensure_device_trusted env d t).0
        (trust_all env ds (ensure_device_trusted env d t).1).0 e in
    (
      let (f, verified) = ensure-verified env d t first in
          let (stated, own) = verified-IsStated env d f verified in
          (
            stated,
            λ h.
                let p = same (device_trust_storage_key env.decimal d) h in
                sym p
                ∙ ok-inj _ f (sym (ensure-checks env d t first (ap truthy p ∙ h)) ∙ verified)
                ∙ own,
          ),
      trust_all-Passes env ds s (ensure_device_trusted env d t).1
          (λ k h. ensure-keeps env d t k (ap truthy (same k h) ∙ h) ∙ same k h) rest,
    )

pub ensure_devices_trusted-Passes :
    (env : Env) (devices : List Device) (s : Chat)
    → (ensure_devices_trusted env devices s).0 ≡ ok tt
    → All (Passes env s) (stable_devices env devices)
unfolding ensure_devices_trusted
ensure_devices_trusted-Passes env devices s e =
    trust_all-Passes env (stable_devices env devices) s s (λ k h. refl) e
