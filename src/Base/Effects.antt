-- ===== src/Base/Effects.antt =====
-- Code that may throw and that changes a state: what it changed before it throws stays changed.
use Prim.Native.String.{String}
use mathlib.Core.Path.{◌≡◌, refl, ap}
use mathlib.Core.Logic.{◌⊎◌, inl, inr}

pub data Result {ℓ} (A : Type ℓ) : Type ℓ where
  ok : A → Result A
  err : String → Result A

pub Result-cases {ℓ} :
    {A : Type ℓ} (r : Result A) → ((a : A) × (r ≡ ok a)) ⊎ ((e : String) × (r ≡ err e))
Result-cases (ok a) = inl (a, refl)
Result-cases (err e) = inr (e, refl)

pub ok-inj {ℓ} : {A : Type ℓ} (a b : A) → ◌≡◌ {A = Result A} (ok a) (ok b) → a ≡ b
ok-inj a b h = cc

module _ {ℓ κ} {A : Type ℓ} {B : Type κ} where
  abbrev pub bind_result : Result A → (A → Result B) → Result B
  bind_result (ok a) f = f a
  bind_result (err e) f = err e

pub bind_result-eq-ok {ℓ κ} :
    {A : Type ℓ} {B : Type κ} (r : Result A) (f : A → Result B) {b : B}
    → bind_result r f ≡ ok b
    → (a : A) × (r ≡ ok a) × (f a ≡ ok b)
bind_result-eq-ok (ok a) f h = (a, refl, h)
bind_result-eq-ok (err e) f h = cc

abbrev pub Does {ℓ} : Type 0 → Type ℓ → Type ℓ
Does S A = S → Result A × S

module _ {ℓ} {S : Type 0} {A : Type ℓ} where
  abbrev pub pure : A → Does S A
  pure a s = (ok a, s)

  abbrev pub throw : String → Does S A
  throw e s = (err e, s)

  abbrev pub lift : Result A → Does S A
  lift r s = (r, s)

abbrev pub run_with {ℓ κ} :
    {S : Type 0} {A : Type ℓ} {B : Type κ} → Result A × S → (A → Does S B) → Result B × S
run_with (ok a, s) f = f a s
run_with (err e, s) f = (err e, s)

infixl 5 ◌>>=◌ ◌>>◌
abbrev pub ◌>>=◌ {ℓ κ} :
    {S : Type 0} {A : Type ℓ} {B : Type κ} → Does S A → (A → Does S B) → Does S B
◌>>=◌ m f s = run_with (m s) f

abbrev pub ◌>>◌ {ℓ} : {S : Type 0} {B : Type ℓ} → Does S (Unit {0}) → Does S B → Does S B
m >> k = m >>= λ _. k

abbrev pub get : {S : Type 0} → Does S S
get s = (ok s, s)

abbrev pub modify : {S : Type 0} → (S → S) → Does S (Unit {0})
modify f s = (ok tt, f s)

-- What a run that did not throw was made of.
pub run_with-eq-ok {ℓ κ} :
    {S : Type 0} {A : Type ℓ} {B : Type κ} (r : Result A × S) (f : A → Does S B) {b : B} {s : S}
    → run_with r f ≡ (ok b, s)
    → (a : A) × (r.0 ≡ ok a) × (f a r.1 ≡ (ok b, s))
run_with-eq-ok (ok a, s) f h = (a, refl, h)
run_with-eq-ok (err e, s) f h = cc

pub eq_of_ok {ℓ} :
    {S : Type 0} {A : Type ℓ} (a b : A) (s t : S)
    → ◌≡◌ {A = Result A × S} (ok a, s) (ok b, t)
    → a ≡ b
eq_of_ok a b s t h = let p = ap (λ r. r.0) h in cc
