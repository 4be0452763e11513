-- ===== src/Vault/Keys.antt =====
-- Whether the keys that the session keeps and answers belong to the key it is unlocked with.
use elektrine.Base.{
  ℕ, zero, suc, ◌≡◌, refl, sym, ap, ◌∙◌, String, Bool, true, false, Option, none, some, List, [],
  ◌∷◌, ◌++◌, get_elem?, remove_at, All, arith, eq_iff, eq_refl, is_some, inl, inr, Bool-cases,
  Option-cases,
}
use mathlib.Core.List.{append_assoc}
use elektrine.Vault.Types.{Kind, encryption, hmac, CryptoKey, Env, Derivation, key, Vault}
use elektrine.Vault.Session.{
  Event, unlock, lock, feature_key, settle, subscribe, unsubscribe, reload, derive, derived, step,
  run, set_key, with_mdk, ask_feature_key, unlock_with, lock_now, load_session,
}

-- The key of a feature under the key that the session is unlocked with.
abbrev pub current : Env → Option (List ℕ) → Kind → String → Option CryptoKey
current env none kind feature = none
current env (some mdk) kind feature = derive env kind mdk feature

pub record IsCurrent (env : Env) (s : Vault) : Type 0 where
  pub cached :
      (kind : Kind) (feature : String) (k : CryptoKey)
      → s.keys kind feature ≡ some k
      → current env s.mdk kind feature ≡ some k
  pub underway : All (λ d. s.mdk ≡ some d.mdk) s.pending

-- The event leaves the session's key as it is.
abbrev pub keeps_mdk : Event → Bool
keeps_mdk (unlock mdk) = false
keeps_mdk lock = false
keeps_mdk _ = true

All-append :
    (P : Derivation → Type 0) (d : Derivation) (ds : List Derivation)
    → All P ds
    → P d
    → All P (ds ++ d ∷ [])
All-append P d [] h p = (p, tt)
All-append P d (x ∷ ds) (q, h) p = (q, All-append P d ds h p)

All-remove_at :
    (P : Derivation → Type 0) (ds : List Derivation) (i : ℕ) → All P ds → All P (remove_at ds i)
All-remove_at P [] i h = tt
All-remove_at P (x ∷ ds) zero (q, h) = h
All-remove_at P (x ∷ ds) (suc i) (q, h) = (q, All-remove_at P ds i h)

All-get_elem? :
    (P : Derivation → Type 0) (ds : List Derivation) (i : ℕ) (d : Derivation)
    → All P ds
    → get_elem? ds i ≡ some d
    → P d
All-get_elem? P [] i d h e = cc
All-get_elem? P (x ∷ ds) zero d (q, h) e = grind arith
All-get_elem? P (x ∷ ds) (suc i) d (q, h) e = All-get_elem? P ds i d h e

set_key_lem :
    (env : Env) (kind other : Kind) (feature name : String) (k l : CryptoKey)
    (keys : Kind → String → Option CryptoKey) (m : Option (List ℕ))
    → current env m kind feature ≡ some k
    → (keys other name ≡ some l → current env m other name ≡ some l)
    → set_key kind feature k keys other name ≡ some l
    → current env m other name ≡ some l
unfolding set_key
set_key_lem env encryption encryption feature name k l keys m h g e =
    grind (arith, (eq_iff feature name).0)
set_key_lem env hmac hmac feature name k l keys m h g e = grind (arith, (eq_iff feature name).0)
set_key_lem env encryption hmac feature name k l keys m h g e = g e
set_key_lem env hmac encryption feature name k l keys m h g e = g e

derived-IsCurrent :
    (env : Env) (d : Derivation) (s : Vault)
    → s.mdk ≡ some d.mdk
    → IsCurrent env s
    → IsCurrent env (derived d (derive env d.kind d.mdk d.feature) s)
unfolding derived
derived-IsCurrent env d s e h = elim (Option-cases (derive env d.kind d.mdk d.feature)) [
  | inl p ↦ rw p (record { cached = h.cached; underway = h.underway })
  | inr (k, p) ↦ rw p (record {
    cached = λ kind feature l q.
        set_key_lem env d.kind kind d.feature feature k l s.keys s.mdk (rw (e, p))
          (h.cached kind feature l) q;
    underway = h.underway;
  })
]

settle_at-IsCurrent :
    (env : Env) (i : ℕ) (s : Vault) → IsCurrent env s → IsCurrent env (step env (settle i) s)
unfolding step
settle_at-IsCurrent env i s h = elim (Option-cases (get_elem? s.pending i)) [
  | inl p ↦ rw p h
  | inr (d, p) ↦ rw p (
      derived-IsCurrent env d (record s { pending = remove_at s.pending i })
        (All-get_elem? (λ c. s.mdk ≡ some c.mdk) s.pending i d h.underway p)
        (record {
          cached = h.cached;
          underway = All-remove_at (λ c. s.mdk ≡ some c.mdk) s.pending i h.underway;
        }))
]

with_mdk-IsCurrent :
    (env : Env) (kind : Kind) (feature : String) (m : Option (List ℕ)) (s : Vault)
    → s.mdk ≡ m
    → IsCurrent env s
    → IsCurrent env (with_mdk kind feature m s)
with_mdk-IsCurrent env kind feature none s e h = record { cached = h.cached; underway = h.underway }
with_mdk-IsCurrent env kind feature (some mdk) s e h =
    elim (Bool-cases (is_some (s.keys kind feature))) [
      | inl q ↦ rw q (record { cached = h.cached; underway = h.underway })
      | inr q ↦ rw q (record {
        cached = h.cached;
        underway = All-append (λ c. s.mdk ≡ some c.mdk) _ s.pending h.underway e;
      })
    ]

set_key-same :
    (kind : Kind) (feature : String) (k : CryptoKey) (keys : Kind → String → Option CryptoKey)
    → set_key kind feature k keys kind feature ≡ some k
unfolding set_key
set_key-same encryption feature k keys = rw (eq_refl feature) refl
set_key-same hmac feature k keys = rw (eq_refl feature) refl

-- The keys that are cached, and the derivations under way, belong to the key that the session is
-- unlocked with: every event keeps this, if no derivation is under way when the session is
-- unlocked or locked.
pub step-IsCurrent :
    (env : Env) (e : Event) (s : Vault)
    → IsCurrent env s
    → ((keeps_mdk e ≡ false) → s.pending ≡ [])
    → IsCurrent env (step env e s)
unfolding step ask_feature_key unlock_with lock_now load_session
step-IsCurrent env (unlock mdk) s h idle = record {
  cached = λ kind feature k q. cc;
  underway = rw (idle refl) tt;
}
step-IsCurrent env lock s h idle = record {
  cached = λ kind feature k q. cc;
  underway = rw (idle refl) tt;
}
step-IsCurrent env (feature_key kind feature) s h idle =
    with_mdk-IsCurrent env kind feature s.mdk s refl h
step-IsCurrent env (settle i) s h idle = settle_at-IsCurrent env i s h
step-IsCurrent env (subscribe l) s h idle = record { cached = h.cached; underway = h.underway }
step-IsCurrent env (unsubscribe l) s h idle = record { cached = h.cached; underway = h.underway }
step-IsCurrent env reload s h idle = record { cached = λ kind feature k q. cc; underway = tt }

cached_key :
    (env : Env) (kind : Kind) (feature : String) (mdk : List ℕ) (k l : CryptoKey) (s : Vault)
    → IsCurrent env s
    → s.mdk ≡ some mdk
    → s.keys kind feature ≡ some l
    → derive env kind mdk feature ≡ some k
    → some l ≡ some k
cached_key env kind feature mdk k l s h e p d = sym (h.cached kind feature l p) ∙ rw e d

-- Asked for a key while none is derived, an unlocked session whose cached keys are current
-- answers the feature's key under the key it is unlocked with, whether it was cached or is
-- derived now, if the derivation succeeds.
pub feature_key-settle :
    (env : Env) (kind : Kind) (feature : String) (mdk : List ℕ) (k : CryptoKey) (s : Vault)
    → IsCurrent env s
    → s.pending ≡ []
    → s.mdk ≡ some mdk
    → derive env kind mdk feature ≡ some k
    → (run env (feature_key kind feature ∷ settle 0 ∷ []) s).answers
      ≡ s.answers ++ record { kind = kind; feature = feature; outcome = key (some k) } ∷ []
unfolding run step ask_feature_key derived
feature_key-settle env kind feature mdk k s h idle e d = elim (Option-cases (s.keys kind feature)) [
  | inl p ↦ rw (e, p, idle, d, set_key-same kind feature k s.keys) refl
  | inr (l, p) ↦
      rw (e, p, idle)
        (ap (λ o. s.answers ++ record { kind = kind; feature = feature; outcome = key o } ∷ [])
          (cached_key env kind feature mdk k l s h e p d))
]

-- If no derivation is under way and the one from the old key succeeds, then a session that is
-- unlocked with the old key, asked for the key of a feature, unlocked with a new key before the
-- derivation settles, and asked again, answers the feature's key under the old key both times.
pub unlock-settle_stale :
    (env : Env) (kind : Kind) (feature : String) (old new : List ℕ) (k : CryptoKey) (s : Vault)
    → s.pending ≡ []
    → derive env kind old feature ≡ some k
    → (run env
        (unlock old
          ∷ feature_key kind feature
          ∷ unlock new
          ∷ settle 0
          ∷ feature_key kind feature
          ∷ [])
        s).answers
      ≡ s.answers
        ++ record { kind = kind; feature = feature; outcome = key (some k) }
          ∷ record { kind = kind; feature = feature; outcome = key (some k) }
          ∷ []
unfolding run step ask_feature_key unlock_with derived
unlock-settle_stale env kind feature old new k s idle d =
    rw (idle, d, set_key-same kind feature k) (append_assoc s.answers _ _)
