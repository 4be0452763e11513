-- ===== src/Notify/Marks.antt =====
-- Counting the ids that are marked, that wait, and that were pushed.
use elektrine.Base.{
  ℕ, ◌+◌, ◌≡◌, refl, ◌∙◌, String, Bool, true, false, not, ◌||◌, List, [], ◌∷◌, ◌++◌, ◌===◌, keep_if,
  All, arith, eq_iff, eq_refl, inl, inr, Bool-cases,
}
use elektrine.Notify.Hook.{Hook, has, add_id, queue}

abbrev bit : Bool → ℕ
bit false = 0
bit true = 1

abbrev pub count : String → List String → ℕ
count x [] = 0
count x (y ∷ ys) = bit (y === x) + count x ys

-- How often an id was pushed, in all the messages.
abbrev pub count_pushed : String → List (List String) → ℕ
count_pushed x [] = 0
count_pushed x (ids ∷ rest) = count x ids + count_pushed x rest

-- No id stands twice in the list.
abbrev pub Distinct : List String → Type 0
Distinct [] = Unit
Distinct (x ∷ xs) = (has x xs ≡ false) × Distinct xs

-- Nothing is marked, waiting or pushed but together, and nothing twice.
pub record IsTracked (h : Hook) : Type 0 where
  pub once :
      (x : String)
      → count_pushed x h.pushed + count x h.pending_mark_as_read ≡ bit (has x h.marked_as_read)

===_comm : (x y : String) → (x === y) ≡ (y === x)
===_comm x y = elim (Bool-cases (x === y)) [
  | inl e ↦ rw ((eq_iff x y).0 e) refl
  | inr e ↦ elim (Bool-cases (y === x)) [
    | inl f ↦ rw ((eq_iff y x).0 f) refl
    | inr f ↦ rw (e, f) refl
  ]
]

count-append : (x : String) (xs ys : List String) → count x (xs ++ ys) ≡ count x xs + count x ys
count-append x [] ys = omega arith
count-append x (y ∷ xs) ys = omega (arith, count-append x xs ys)

pub count_pushed-append :
    (x : String) (xs ys : List (List String))
    → count_pushed x (xs ++ ys) ≡ count_pushed x xs + count_pushed x ys
count_pushed-append x [] ys = omega arith
count_pushed-append x (y ∷ xs) ys = omega (arith, count_pushed-append x xs ys)

pub count_of_has : (x : String) (xs : List String) → has x xs ≡ false → count x xs ≡ 0
count_of_has x [] e = refl
count_of_has x (y ∷ xs) e = ground (arith, count_of_has x xs)

pub has-add_id : (x z : String) (ys : List String) → has z (add_id x ys) ≡ ((x === z) || has z ys)
unfolding add_id
has-add_id x z ys = elim (Bool-cases (has x ys)) [
  | inl e ↦ elim (Bool-cases (x === z)) [
    | inl f ↦ rw⁻¹ ((eq_iff x z).0 f) (rw (e, eq_refl x) e)
    | inr f ↦ rw (e, f) refl
  ]
  | inr e ↦ rw e refl
]

absent-add_id :
    (x : String) (xs ys : List String)
    → has x xs ≡ false
    → All (λ y. has y ys ≡ false) xs
    → All (λ y. has y (add_id x ys) ≡ false) xs
absent-add_id x [] ys e h = tt
absent-add_id x (y ∷ xs) ys e (p, h) =
    (grind (arith, has-add_id x y ys, ===_comm x y), absent-add_id x xs ys (ground arith) h)

queue_one :
    (x : String) (h : Hook)
    → has x h.marked_as_read ≡ false
    → IsTracked h
    → IsTracked (record h {
      marked_as_read = add_id x h.marked_as_read;
      pending_mark_as_read = h.pending_mark_as_read ++ x ∷ [];
    })
queue_one x h e t = record {
  once = λ z. elim (Bool-cases (x === z)) [
    | inl f ↦ rw⁻¹ ((eq_iff x z).0 f) (
        rw
          (
            count-append x h.pending_mark_as_read (x ∷ []),
            has-add_id x x h.marked_as_read,
            eq_refl x,
          )
          (ground (arith, t.once x)))
    | inr f ↦
        rw (count-append z h.pending_mark_as_read (x ∷ []), has-add_id x z h.marked_as_read, f)
          (ground (arith, t.once z))
  ];
}

pub queue-IsTracked :
    (xs : List String) (h : Hook)
    → Distinct xs
    → All (λ x. has x h.marked_as_read ≡ false) xs
    → IsTracked h
    → IsTracked (queue xs h)
unfolding queue
queue-IsTracked [] h d a t = t
queue-IsTracked (x ∷ xs) h (f, d) (e, a) t =
    queue-IsTracked xs _ d (absent-add_id x xs h.marked_as_read f a) (queue_one x h e t)

keep_if-has :
    (p : String → Bool) (x : String) (xs : List String)
    → has x xs ≡ false
    → has x (keep_if p xs) ≡ false
keep_if-has p x [] e = refl
keep_if-has p x (y ∷ xs) e = elim (Bool-cases (p y)) [
  | inl f ↦ rw f (ground (arith, keep_if-has p x xs))
  | inr f ↦ rw f (keep_if-has p x xs (ground arith))
]

pub keep_if-Distinct :
    (p : String → Bool) (xs : List String) → Distinct xs → Distinct (keep_if p xs)
keep_if-Distinct p [] d = tt
keep_if-Distinct p (x ∷ xs) (e, d) = elim (Bool-cases (p x)) [
  | inl f ↦ rw f (keep_if-has p x xs e, keep_if-Distinct p xs d)
  | inr f ↦ rw f (keep_if-Distinct p xs d)
]

pub keep_if-All :
    (ys xs : List String) → All (λ x. has x ys ≡ false) (keep_if (λ x. not (has x ys)) xs)
keep_if-All ys [] = tt
keep_if-All ys (x ∷ xs) = elim (Bool-cases (has x ys)) [
  | inl f ↦ rw f (keep_if-All ys xs)
  | inr f ↦ rw f (f, keep_if-All ys xs)
]

pub keep_if-keeps :
    (p : String → Bool) (x : String) (xs : List String)
    → p x ≡ true
    → has x xs ≡ true
    → has x (keep_if p xs) ≡ true
keep_if-keeps p x [] e h = cc
keep_if-keeps p x (y ∷ xs) e h = elim (Bool-cases (y === x)) [
  | inl f ↦ rw ((eq_iff y x).0 f, e) (rw (eq_refl x) refl)
  | inr f ↦
      let rest = keep_if-keeps p x xs e (ground arith) in
      elim (Bool-cases (p y)) [ inl g ↦ rw (g, f) rest | inr g ↦ rw g rest ]
]

pub queue-has :
    (x : String) (xs : List String) (h : Hook)
    → has x (queue xs h).marked_as_read ≡ (has x xs || has x h.marked_as_read)
unfolding queue
queue-has x [] h = refl
queue-has x (y ∷ xs) h = queue-has x xs _ ∙ rw (has-add_id y x h.marked_as_read) (ground arith)
