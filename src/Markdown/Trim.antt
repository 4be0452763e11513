-- ===== src/Markdown/Trim.antt =====
-- Trimming a text and cutting it at a character, and its tags.
use elektrine.Base.{
  same_some, none-some, all_true, and_of, and_left, and_right, ℕ, ◌≡◌, refl, sym, ap, ◌∙◌, Bool,
  true, false, not, some, List, [], ◌∷◌, if◌then◌else◌, ◌==◌, arith, inl, inr, Bool-cases,
  Option-cases, is_space, ==→eq, ◌⊎◌,
}
use elektrine.Markdown.Text.{Text, begins, split_at, drop_while, drop_last_while, trim_text}
use elektrine.Markdown.Inline.{up_to}
use elektrine.Markdown.Tagged.{
  is_tagged, all_tagged, all_lack, stands, stands_mono, begins_any-step, tagged_head, tagged_tail,
  tagged_cons, first, split_at-tagged, first-split_at,
}

-- The last character is no space.
abbrev pub is_solid : Text → Bool
is_solid [] = true
is_solid (c ∷ []) = not (is_space c)
is_solid (c ∷ d ∷ t) = is_solid (d ∷ t)

false-true {ℓ} : {A : Type ℓ} {x y : A} → false ≡ true → x ≡ y
false-true h = cc

abbrev onto_last : (ℕ → Bool) → ℕ → Text → Text
onto_last f c r = elim r [ [] ↦ if f c then [] else c ∷ [] | d ∷ q ↦ c ∷ d ∷ q ]

begins-nonempty :
    (d : ℕ) (t r : Text) (c : ℕ) (f : ℕ → Bool) → begins (d ∷ t) r ≡ true → onto_last f c r ≡ c ∷ r
begins-nonempty d t [] c f h = ground arith
begins-nonempty d t (e ∷ r) c f h = refl

one_onto_last :
    (c e : ℕ) (q : Text)
    → (c == e) ≡ true
    → not (is_space e) ≡ true
    → begins (c ∷ []) (onto_last is_space e q) ≡ true
one_onto_last c e [] h k = elim (Bool-cases (is_space e)) [
  | inl f ↦ false-true (rw f at k)
  | inr f ↦ rw f (and_of (c == e) true h refl)
]
one_onto_last c e (d ∷ q) h k = and_of (c == e) true h refl

begins-drop_last :
    (t s : Text)
    → is_solid t ≡ true
    → begins t s ≡ true
    → begins t (drop_last_while is_space s) ≡ true
begins-drop_last [] s l h = refl
begins-drop_last (c ∷ t) [] l h = ground arith
begins-drop_last (c ∷ []) (e ∷ s) l h =
    let same = and_left (c == e) true h in
    one_onto_last c e (drop_last_while is_space s) same
      (sym (ap (λ x. not (is_space x)) (==→eq c e same)) ∙ l)
begins-drop_last (c ∷ d ∷ t) (e ∷ s) l h =
    let still = begins-drop_last (d ∷ t) s l (and_right (c == e) (begins (d ∷ t) s) h) in
    ap (begins (c ∷ d ∷ t)) (begins-nonempty d t (drop_last_while is_space s) e is_space still)
    ∙ and_of (c == e) (begins (d ∷ t) (drop_last_while is_space s))
        (and_left (c == e) (begins (d ∷ t) s) h) still

begins-drop_after :
    (c : ℕ) (s t : Text)
    → is_solid t ≡ true
    → begins t (c ∷ s) ≡ true
    → begins t (c ∷ drop_last_while is_space s) ≡ true
begins-drop_after c s [] l h = refl
begins-drop_after c s (x ∷ []) l h = and_of (x == c) true (and_left (x == c) true h) refl
begins-drop_after c s (x ∷ d ∷ t) l h =
    and_of (x == c) (begins (d ∷ t) (drop_last_while is_space s))
      (and_left (x == c) (begins (d ∷ t) s) h)
      (begins-drop_last (d ∷ t) s l (and_right (x == c) (begins (d ∷ t) s) h))

module _ (tags : List Text) where
  drop_while-tagged :
      (f : ℕ → Bool) (s : Text) → is_tagged tags s ≡ true → is_tagged tags (drop_while f s) ≡ true
  drop_while-tagged f [] h = refl
  drop_while-tagged f (c ∷ s) h = elim (Bool-cases (f c)) [
    | inl e ↦ rw e (drop_while-tagged f s (tagged_tail tags c s h))
    | inr e ↦ rw e h
  ]

  onto_last-tagged :
      (c : ℕ) (r : Text)
      → stands tags c r ≡ true
      → is_tagged tags r ≡ true
      → is_tagged tags (onto_last is_space c r) ≡ true
  onto_last-tagged c [] h k = elim (Bool-cases (is_space c)) [
    | inl e ↦ rw e refl
    | inr e ↦ rw e (tagged_cons tags c [] h refl)
  ]
  onto_last-tagged c (d ∷ r) h k = tagged_cons tags c (d ∷ r) h k

  drop_last-tagged :
      (s : Text)
      → all_true is_solid tags ≡ true
      → is_tagged tags s ≡ true
      → is_tagged tags (drop_last_while is_space s) ≡ true
  drop_last-tagged [] l h = refl
  drop_last-tagged (c ∷ s) l h =
      let left = drop_last_while is_space s in
      let stays = begins_any-step is_solid tags (c ∷ s) (c ∷ left) (begins-drop_after c s) l in
      onto_last-tagged c left (stands_mono tags c s left stays (tagged_head tags c s h))
        (drop_last-tagged s l (tagged_tail tags c s h))

  pub trim_text-tagged :
      (s : Text)
      → all_true is_solid tags ≡ true
      → is_tagged tags s ≡ true
      → is_tagged tags (trim_text s) ≡ true
  unfolding trim_text
  trim_text-tagged s l h =
      drop_last-tagged (drop_while is_space s) l (drop_while-tagged is_space s h)

pub up_to-found :
    (d c : ℕ) (s : Text) (r : Text × Text)
    → up_to d (c ∷ s) ≡ some r
    → ((c == d) ≡ true) × (([], s) ≡ r)
      ⊎ ((c == d) ≡ false) × (q : Text × Text) × (up_to d s ≡ some q) × ((c ∷ q.0, q.1) ≡ r)
up_to-found d c s r h = elim (Bool-cases (c == d)) [
  | inl e ↦ inl (e, same_some ([], s) r (rw e at h))
  | inr e ↦ elim (Option-cases (up_to d s)) [
    | inl f ↦ inl (none-some r (rw f at (rw e at h)), none-some r (rw f at (rw e at h)))
    | inr (q, f) ↦ inr (e, q, f, same_some (c ∷ q.0, q.1) r (rw f at (rw e at h)))
  ]
]

-- What is before the character is the first part of the text split there.
up_to-first : (d : ℕ) (s : Text) (r : Text × Text) → up_to d s ≡ some r → first (split_at d s) ≡ r.0
up_to-first d [] r h = none-some r h
up_to-first d (c ∷ s) r h = elim (up_to-found d c s r h) [
  | inl (e, same) ↦ rw e (ap (λ p. p.0) same)
  | inr (e, q, f, same) ↦
      first-split_at d c s e ∙ ap (λ x. c ∷ x) (up_to-first d s q f) ∙ ap (λ p. p.0) same
]

up_to_rest-tagged :
    (tags : List Text) (d : ℕ) (s : Text) (r : Text × Text)
    → is_tagged tags s ≡ true
    → up_to d s ≡ some r
    → is_tagged tags r.1 ≡ true
up_to_rest-tagged tags d [] r h e = none-some r e
up_to_rest-tagged tags d (c ∷ s) r h e = elim (up_to-found d c s r e) [
  | inl (f, same) ↦ ap (λ p. is_tagged tags p.1) (sym same) ∙ tagged_tail tags c s h
  | inr (f, q, g, same) ↦
      ap (λ p. is_tagged tags p.1) (sym same)
      ∙ up_to_rest-tagged tags d s q (tagged_tail tags c s h) g
]

first-tagged :
    (tags : List Text) (ss : List Text)
    → all_tagged tags ss ≡ true
    → is_tagged tags (first ss) ≡ true
first-tagged tags [] h = refl
first-tagged tags (s ∷ ss) h = and_left (is_tagged tags s) (all_tagged tags ss) h

pub up_to-tagged :
    (tags : List Text) (d : ℕ) (s : Text) (r : Text × Text)
    → all_lack d tags ≡ true
    → is_tagged tags s ≡ true
    → up_to d s ≡ some r
    → (is_tagged tags r.0 ≡ true) × (is_tagged tags r.1 ≡ true)
up_to-tagged tags d s r l h e = (
  sym (ap (is_tagged tags) (up_to-first d s r e))
      ∙ first-tagged tags (split_at d s) (split_at-tagged tags d s l h),
  up_to_rest-tagged tags d s r h e,
)
