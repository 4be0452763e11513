-- ===== src/Capture/Acts/Keeps.antt =====
-- Predicates on every act of a capture.
use elektrine.Base.{
  ◌≡◌, refl, Bool, true, false, String, List, [], ◌∷◌, ◌++◌, All, All-append, All-map, map,
  if◌then◌else◌,
}
use elektrine.Base.Effects.{Result, ok, err, run_with, lift, ◌>>=◌, ◌>>◌}
use elektrine.Api.Types.{Json, Fetch}
use elektrine.Capture.Types.{Platform}
use elektrine.Capture.Acts.{
  Act, server, warning, badge_text, badge_color, badge_cleared_later, M, act, require, sent,
  badge_acts, set_action_badge, reported,
}

module _ (P : Act → Type 0) where
  -- Code that adds no act but those of which `P` holds.
  abbrev pub Keeps : {A : Type 0} → M A → Type 0
  Keeps m = (acts : List Act) → All P acts → All P (m acts).1

  module _ {A B : Type 0} where
    run_with-All :
        (r : Result A × List Act) (f : A → M B)
        → All P r.1
        → ((a : A) → Keeps (f a))
        → All P (run_with r f).1
    run_with-All (ok a, acts) f h k = k a acts h
    run_with-All (err e, acts) f h k = h

    pub then-Keeps : (m : M A) (f : A → M B) → Keeps m → ((a : A) → Keeps (f a)) → Keeps (m >>= f)
    then-Keeps m f h k acts g = run_with-All (m acts) f (h acts g) k

    pub lift-Keeps : (r : Result A) (f : A → M B) → ((a : A) → Keeps (f a)) → Keeps (lift r >>= f)
    lift-Keeps (ok a) f h = h a
    lift-Keeps (err e) f h = λ acts g. g

  pub require-Keeps :
      {B : Type 0} (b : Bool) (message : String) (m : M B)
      → (b ≡ true → Keeps m)
      → Keeps (require b message >> m)
  require-Keeps true message m h = h refl
  require-Keeps false message m h = λ acts g. g

  pub act-Keeps : (a : Act) → P a → Keeps (act a)
  act-Keeps a h acts g = All-append P acts (a ∷ []) g (h, tt)

  pub sent-All : (r : Result Json × List Fetch) → All (λ f. P (server f)) r.1 → Keeps (sent r)
  sent-All (r, fetches) h acts g =
      All-append P acts (map server fetches) g (All-map P server fetches h)

  -- Acts that `P` does not speak of.
  pub record IsSilent : Type 0 where
    pub on_warning : (t : String) → P (warning t)
    pub on_badge : (t : String) → P (badge_text t)
    pub on_color : (t : String) → P (badge_color t)
    pub on_timer : P badge_cleared_later

  module _ (p : Platform) (silent : IsSilent) where
    color_acts-All :
        (b : Bool) (color : String)
        → All P ((if b then badge_color color ∷ [] else []) ++ badge_cleared_later ∷ [])
    color_acts-All true color = (silent.on_color color, (silent.on_timer, tt))
    color_acts-All false color = (silent.on_timer, tt)

    shown-All :
        (b : Bool) (t : String) (acts : List Act)
        → All P acts
        → All P (if b then badge_text t ∷ acts else [])
    shown-All true t acts h = (silent.on_badge t, h)
    shown-All false t acts h = tt

    badge_acts-All : (label color : String) → All P (badge_acts p label color)
    badge_acts-All label color =
        shown-All p.has_badge label _ (color_acts-All p.has_badge_color color)

    pub set_action_badge-Keeps : (label color : String) → Keeps (set_action_badge p label color)
    set_action_badge-Keeps label color acts h =
        All-append P acts (badge_acts p label color) h (badge_acts-All label color)

    pub reported-All :
        (label : String) (r : Result (Unit {0}) × List Act) → All P r.1 → All P (reported p label r)
    reported-All label (ok a, acts) h = h
    reported-All label (err e, acts) h =
        All-append P acts _ h (silent.on_warning _, badge_acts-All "!" "#a56b68")
