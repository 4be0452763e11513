-- ===== src/Markdown/Tagged.antt =====
-- Texts in which every `<` begins one of some tags.
use elektrine.Base.{
  all_true, and_of, and_left, and_right, ℕ, ◌≡◌, refl, sym, ap, ◌∙◌, Bool, true, false, not, ◌&&◌,
  ◌||◌, List, [], ◌∷◌, ◌++◌, ◌==◌, arith, inl, inr, Bool-cases,
}
use elektrine.Markdown.Text.{Text, begins, split_at, onto_first}

abbrev pub begins_any : List Text → Text → Bool
begins_any [] s = false
begins_any (t ∷ ts) s = begins t s || begins_any ts s

abbrev pub is_tagged : List Text → Text → Bool
is_tagged tags [] = true
is_tagged tags (c ∷ s) = (not (c == b'<') || begins_any tags (c ∷ s)) && is_tagged tags s

-- No tag has such a character.
abbrev pub lacks : ℕ → Text → Bool
lacks d [] = true
lacks d (c ∷ s) = not (c == d) && lacks d s

abbrev pub all_lack : ℕ → List Text → Bool
all_lack d = all_true (lacks d)

abbrev pub all_tagged : List Text → List Text → Bool
all_tagged tags [] = true
all_tagged tags (s ∷ ss) = is_tagged tags s && all_tagged tags ss

abbrev pub first : List Text → Text
first [] = []
first (s ∷ ss) = s

or_mono : (a b c : Bool) → (a ≡ true → b ≡ true) → (c || a) ≡ true → (c || b) ≡ true
or_mono a b true h k = refl
or_mono a b false h k = h k

either :
    (a b c d : Bool)
    → (a ≡ true → b ≡ true)
    → (c ≡ true → d ≡ true)
    → (a || c) ≡ true
    → (b || d) ≡ true
either a b c true h k e = ground arith
either true b c false h k e = rw (h refl) refl
either false true c false h k e = refl
either false false c false h k e = k e

begins-append : (t s r : Text) → begins t s ≡ true → begins t (s ++ r) ≡ true
begins-append [] s r h = refl
begins-append (c ∷ t) [] r h = ground arith
begins-append (c ∷ t) (d ∷ s) r h =
    and_of (c == d) (begins t (s ++ r)) (and_left (c == d) (begins t s) h)
      (begins-append t s r (and_right (c == d) (begins t s) h))

begins_any-append :
    (ts : List Text) (s r : Text) → begins_any ts s ≡ true → begins_any ts (s ++ r) ≡ true
begins_any-append [] s r h = h
begins_any-append (t ∷ ts) s r h =
    either (begins t s) (begins t (s ++ r)) (begins_any ts s) (begins_any ts (s ++ r))
      (begins-append t s r) (begins_any-append ts s r) h

-- A step that keeps what begins with a text of some kind keeps what begins with a tag.
pub begins_any-step :
    (q : Text → Bool) (ts : List Text) (x y : Text)
    → ((t : Text) → q t ≡ true → begins t x ≡ true → begins t y ≡ true)
    → all_true q ts ≡ true
    → begins_any ts x ≡ true
    → begins_any ts y ≡ true
begins_any-step q [] x y f l h = h
begins_any-step q (t ∷ ts) x y f l h =
    either (begins t x) (begins t y) (begins_any ts x) (begins_any ts y)
      (f t (and_left (q t) (all_true q ts) l))
      (begins_any-step q ts x y f (and_right (q t) (all_true q ts) l)) h

abbrev pub stands : List Text → ℕ → Text → Bool
stands tags c s = not (c == b'<') || begins_any tags (c ∷ s)

pub stands_mono :
    (tags : List Text) (c : ℕ) (x y : Text)
    → (begins_any tags (c ∷ x) ≡ true → begins_any tags (c ∷ y) ≡ true)
    → stands tags c x ≡ true
    → stands tags c y ≡ true
stands_mono tags c x y =
    or_mono (begins_any tags (c ∷ x)) (begins_any tags (c ∷ y)) (not (c == b'<'))

module _ (tags : List Text) where
  pub tagged_head : (c : ℕ) (s : Text) → is_tagged tags (c ∷ s) ≡ true → stands tags c s ≡ true
  tagged_head c s = and_left (stands tags c s) (is_tagged tags s)

  pub tagged_tail : (c : ℕ) (s : Text) → is_tagged tags (c ∷ s) ≡ true → is_tagged tags s ≡ true
  tagged_tail c s = and_right (stands tags c s) (is_tagged tags s)

  pub tagged_cons :
      (c : ℕ) (s : Text)
      → stands tags c s ≡ true
      → is_tagged tags s ≡ true
      → is_tagged tags (c ∷ s) ≡ true
  tagged_cons c s = and_of (stands tags c s) (is_tagged tags s)

  pub tagged_append :
      (s r : Text)
      → is_tagged tags s ≡ true
      → is_tagged tags r ≡ true
      → is_tagged tags (s ++ r) ≡ true
  tagged_append [] r h k = k
  tagged_append (c ∷ s) r h k =
      tagged_cons c (s ++ r)
        (stands_mono tags c s (s ++ r) (begins_any-append tags (c ∷ s) r) (tagged_head c s h))
        (tagged_append s r (tagged_tail c s h) k)

  all_tagged_head :
      (s : Text) (ss : List Text) → all_tagged tags (s ∷ ss) ≡ true → is_tagged tags s ≡ true
  all_tagged_head s ss = and_left (is_tagged tags s) (all_tagged tags ss)

  all_tagged_tail :
      (s : Text) (ss : List Text) → all_tagged tags (s ∷ ss) ≡ true → all_tagged tags ss ≡ true
  all_tagged_tail s ss = and_right (is_tagged tags s) (all_tagged tags ss)

  onto_first-tagged :
      (c : ℕ) (ss : List Text)
      → stands tags c (first ss) ≡ true
      → all_tagged tags ss ≡ true
      → all_tagged tags (onto_first c ss) ≡ true
  onto_first-tagged c [] h k = and_of (is_tagged tags (c ∷ [])) true (tagged_cons c [] h refl) refl
  onto_first-tagged c (s ∷ ss) h k =
      and_of (is_tagged tags (c ∷ s)) (all_tagged tags ss)
        (tagged_cons c s h (all_tagged_head s ss k)) (all_tagged_tail s ss k)

first-onto_first : (c : ℕ) (ss : List Text) → first (onto_first c ss) ≡ c ∷ first ss
first-onto_first c [] = refl
first-onto_first c (s ∷ ss) = refl

pub first-split_at :
    (d c : ℕ) (s : Text) → (c == d) ≡ false → first (split_at d (c ∷ s)) ≡ c ∷ first (split_at d s)
first-split_at d c s e = rw e (first-onto_first c (split_at d s))

-- A tag without the delimiter stays whole when the text is split there.
pub begins-first :
    (d : ℕ) (t s : Text)
    → lacks d t ≡ true
    → begins t s ≡ true
    → begins t (first (split_at d s)) ≡ true
begins-first d [] s l h = refl
begins-first d (c ∷ t) [] l h = ground arith
begins-first d (c ∷ t) (e ∷ s) l h =
    let same = and_left (c == e) (begins t s) h in
    let other = and_left (not (c == d)) (lacks d t) l in
    let k : (e == d) ≡ false = ground arith in
    ap (begins (c ∷ t)) (first-split_at d e s k)
    ∙ and_of (c == e) (begins t (first (split_at d s))) same (
        begins-first d t s (and_right (not (c == d)) (lacks d t) l)
          (and_right (c == e) (begins t s) h))

pub split_at-tagged :
    (tags : List Text) (d : ℕ) (s : Text)
    → all_lack d tags ≡ true
    → is_tagged tags s ≡ true
    → all_tagged tags (split_at d s) ≡ true
split_at-tagged tags d [] l h = refl
split_at-tagged tags d (c ∷ s) l h =
    let rest = split_at-tagged tags d s l (tagged_tail tags c s h) in
    elim (Bool-cases (c == d)) [
      | inl e ↦ rw e rest
      | inr e ↦
          let stays =
            begins_any-step (lacks d) tags (c ∷ s) (c ∷ first (split_at d s))
              (λ t m b. sym (ap (begins t) (first-split_at d c s e)) ∙ begins-first d t (c ∷ s) m b)
              l in
          rw e (
            onto_first-tagged tags c (split_at d s)
              (stands_mono tags c s (first (split_at d s)) stays (tagged_head tags c s h)) rest)
    ]
