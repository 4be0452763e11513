-- ===== src/Chat/Trust/Stated.antt =====
-- What a device states of itself (verifiedDeviceFingerprint).
use mathlib.Core.Path.{subst}
use elektrine.Base.{
  ◌≡◌, refl, sym, ◌∙◌, String, Bool, true, false, Option, none, some, ◌===◌, truthy, or_text,
  text_of, eq_iff, inl, inr, Bool-cases,
}
use elektrine.Base.Effects.{Result, ok, err, ok-inj}
use elektrine.Chat.Types.{KeyPayload, Device, Env}
use elektrine.Chat.Devices.{
  device_fingerprint, signing_public_key_payload, device_fingerprint_payload,
}
use elektrine.Chat.Trust.{valid_or_throw, checked_signature, verified_device_fingerprint}

-- A signature that is there is valid for a fingerprint, if there is a key for it.
abbrev pub Signs : Env → Device → String → Option KeyPayload → Type 0
Signs env d f none = Unit
Signs env d f (some p) =
    truthy (text_of d.device_signature) ≡ true
    → (p.algorithm ≡ "ECDSA-P256-SHA256")
      × (env.verify p.key (text_of d.device_signature)
            (env.signature_text (device_fingerprint_payload d) f)
          ≡ some true)

-- The fingerprint of a device, if it states one, is that of its keys, and so is its signature.
abbrev pub IsStated : Env → Device → Type 0
IsStated env d =
    (or_text (text_of d.fingerprint) (device_fingerprint env d) ≡ device_fingerprint env d)
    × Signs env d (device_fingerprint env d) (signing_public_key_payload d)

valid_inv : (f g : String) (o : Option Bool) → valid_or_throw f o ≡ ok g → (o ≡ some true) × (f ≡ g)
valid_inv f g none h = cc
valid_inv f g (some false) h = cc
valid_inv f g (some true) h = (refl, ok-inj f g h)

not_ok {ℓ} : {A : Type ℓ} {x y : A} (e g : String) → ◌≡◌ {A = Result String} (err e) (ok g) → x ≡ y
not_ok e g h = cc

abbrev Unless : Bool → Type 0 → Type 0
Unless true A = Unit
Unless false A = A

not_ok_at : (A : Type 0) (e g : String) → ◌≡◌ {A = Result String} (err e) (ok g) → A
not_ok_at A e g h = subst (λ b. Unless b A) (not_ok {x = true} {y = false} e g h) tt

not_both {ℓ} : {A : Type ℓ} {x y : A} (b : Bool) → b ≡ false → b ≡ true → x ≡ y
not_both b e h = cc

checked_inv :
    (env : Env) (d : Device) (f g : String) (o : Option KeyPayload)
    → checked_signature env d f o ≡ ok g
    → (f ≡ g) × Signs env d f o
checked_inv env d f g none h = (ok-inj f g h, tt)
checked_inv env d f g (some q) h = elim (Bool-cases (truthy (text_of d.device_signature))) [
  | inr e ↦
      let absent = truthy (text_of d.device_signature) in
      (ok-inj f g (rw e at h), λ t. (not_both absent e t, not_both absent e t))
  | inl e ↦ elim (Bool-cases (q.algorithm === "ECDSA-P256-SHA256")) [
    | inr a ↦
        let refused = rw (e, a) at h in
        (
          not_ok "Invalid chat signing key" g refused,
          λ t. (
            not_ok "Invalid chat signing key" g refused,
            not_ok "Invalid chat signing key" g refused,
          ),
        )
    | inl a ↦
        let (valid, same) = valid_inv f g _ (rw (e, a) at h) in
        (same, λ t. ((eq_iff q.algorithm "ECDSA-P256-SHA256").0 a, valid))
  ]
]

pub verified-IsStated :
    (env : Env) (d : Device) (f : String)
    → verified_device_fingerprint env d ≡ ok f
    → IsStated env d × (f ≡ device_fingerprint env d)
unfolding verified_device_fingerprint
verified-IsStated env d f h =
    let computed = device_fingerprint env d in
    let advertised = or_text (text_of d.fingerprint) computed in
    elim (Bool-cases (advertised === computed)) [
      | inl e ↦
          let own = (eq_iff advertised computed).0 e in
          let (same, signs) =
            checked_inv env d advertised f (signing_public_key_payload d) (rw e at h) in
          (
            (own, subst (λ x. Signs env d x (signing_public_key_payload d)) own signs),
            sym same ∙ own,
          )
      | inr e ↦ not_ok_at (IsStated env d × (f ≡ computed)) "untrusted_device" f (rw e at h)
    ]
