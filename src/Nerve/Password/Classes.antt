-- ===== src/Nerve/Password/Classes.antt =====
-- The characters of a password: how many, and of which classes.
use elektrine.Base.{
  ℕ, zero, suc, ◌+◌, ◌≡◌, ◌≤◌, refl, ◌∙◌, Bool, true, false, ◌||◌, Option, none, some, List, [],
  ◌∷◌, ◌++◌, ◌==◌, length, get_elem?, arith,
}
use elektrine.Nerve.Password.{
  all_characters, Draw, continue, found, at, set_at, random_int, pick, fill_up, swap, shuffle,
}

abbrev pub belongs : List ℕ → ℕ → Bool
belongs [] x = false
belongs (y ∷ ys) x = y == x || belongs ys x

abbrev bit : Bool → ℕ
bit false = 0
bit true = 1

-- How many characters pass a test.
abbrev pub tally : (ℕ → Bool) → List ℕ → ℕ
tally p [] = 0
tally p (x ∷ xs) = bit (p x) + tally p xs

module _ {ℓ κ} {A : Type ℓ} (P : A → Type κ) where
  -- What is drawn, if the draws suffice, satisfies `P`.
  abbrev pub Yields : Option (A × List ℕ) → Type κ
  Yields none = Unit
  Yields (some (a, draws)) = P a

pub continue-Yields :
    {A B : Type 0} (P : A → Type 0) (Q : B → Type 0) (r : Option (A × List ℕ)) (f : A → Draw B)
    → Yields P r
    → ((a : A) (draws : List ℕ) → P a → Yields Q (f a draws))
    → Yields Q (continue r f)
continue-Yields P Q none f h g = tt
continue-Yields P Q (some (a, draws)) f h g = g a draws h

get_elem?-belongs : (xs : List ℕ) (i x : ℕ) → get_elem? xs i ≡ some x → belongs xs x ≡ true
get_elem?-belongs [] i x h = cc
get_elem?-belongs (y ∷ xs) zero x h = ground arith
get_elem?-belongs (y ∷ xs) (suc i) x h = ground (arith, get_elem?-belongs xs i x h)

continue-any :
    {A B : Type 0} (Q : B → Type 0) (r : Option (A × List ℕ)) (f : A → Draw B)
    → ((a : A) (draws : List ℕ) → Yields Q (f a draws))
    → Yields Q (continue r f)
continue-any Q none f g = tt
continue-any Q (some (a, draws)) f g = g a draws

found-Yields : (o : Option ℕ) (draws : List ℕ) → Yields (λ x. o ≡ some x) (found o draws)
found-Yields none draws = tt
found-Yields (some x) draws = refl

found-belongs :
    (xs : List ℕ) (i : ℕ) (o : Option ℕ) (draws : List ℕ)
    → get_elem? xs i ≡ o
    → Yields (λ x. belongs xs x ≡ true) (found o draws)
found-belongs xs i none draws e = tt
found-belongs xs i (some x) draws e = get_elem?-belongs xs i x e

pub pick-Yields : (xs : List ℕ) (draws : List ℕ) → Yields (λ x. belongs xs x ≡ true) (pick xs draws)
unfolding pick
pick-Yields xs draws =
    continue-any (λ x. belongs xs x ≡ true) (random_int (length xs) draws) (λ i. at xs i)
      (λ i rest. found-belongs xs i (get_elem? xs i) rest refl)

tally-append : (p : ℕ → Bool) (xs ys : List ℕ) → tally p (xs ++ ys) ≡ tally p xs + tally p ys
tally-append p [] ys = omega arith
tally-append p (x ∷ xs) ys = omega (arith, tally-append p xs ys)

tally-set_at :
    (p : ℕ → Bool) (xs : List ℕ) (i x y : ℕ)
    → get_elem? xs i ≡ some x
    → tally p (set_at xs i y) + bit (p x) ≡ tally p xs + bit (p y)
tally-set_at p [] i x y h = cc
tally-set_at p (z ∷ xs) zero x y h = ground arith
tally-set_at p (z ∷ xs) (suc i) x y h = ground (arith, tally-set_at p xs i x y h)

get_elem?-set_at :
    (xs : List ℕ) (i j x y : ℕ)
    → get_elem? xs i ≡ some x
    → get_elem? xs j ≡ some y
    → get_elem? (set_at xs i y) j ≡ some y
get_elem?-set_at [] i j x y h g = cc
get_elem?-set_at (z ∷ xs) zero zero x y h g = refl
get_elem?-set_at (z ∷ xs) zero (suc j) x y h g = g
get_elem?-set_at (z ∷ xs) (suc i) zero x y h g = g
get_elem?-set_at (z ∷ xs) (suc i) (suc j) x y h g = get_elem?-set_at xs i j x y h g

swapped :
    (p : ℕ → Bool) (xs : List ℕ) (i j x y : ℕ)
    → get_elem? xs i ≡ some x
    → get_elem? xs j ≡ some y
    → tally p (set_at (set_at xs i y) j x) ≡ tally p xs
swapped p xs i j x y h g = omega (
  arith,
  tally-set_at p xs i x y h,
  tally-set_at p (set_at xs i y) j y x (get_elem?-set_at xs i j x y h g),
)

-- The same characters in another order.
abbrev pub SameTallies : List ℕ → List ℕ → Type 0
SameTallies xs ys = (p : ℕ → Bool) → tally p ys ≡ tally p xs

swap-Yields : (xs : List ℕ) (i j : ℕ) (draws : List ℕ) → Yields (SameTallies xs) (swap xs i j draws)
swap-Yields xs i j draws =
    continue-Yields (λ x. get_elem? xs i ≡ some x) (SameTallies xs) (at xs i draws) _
      (found-Yields (get_elem? xs i) draws)
      (λ x rest h.
        continue-Yields (λ y. get_elem? xs j ≡ some y) (SameTallies xs) (at xs j rest) _
          (found-Yields (get_elem? xs j) rest) (λ y end g p. swapped p xs i j x y h g))

pub weaken :
    {A : Type 0} (P Q : A → Type 0) (r : Option (A × List ℕ))
    → Yields P r
    → ((a : A) → P a → Q a)
    → Yields Q r
weaken P Q none h g = tt
weaken P Q (some (a, draws)) h g = g a h

pub shuffle-Yields :
    (i : ℕ) (xs : List ℕ) (draws : List ℕ) → Yields (SameTallies xs) (shuffle i xs draws)
unfolding shuffle
shuffle-Yields zero xs draws = λ p. refl
shuffle-Yields (suc i) xs draws =
    continue-any (SameTallies xs) (random_int (suc i + 1) draws) _ (λ j rest.
      continue-Yields (SameTallies xs) (SameTallies xs) (swap xs (suc i) j rest) _
        (swap-Yields xs (suc i) j rest)
        (λ ys end h.
          weaken (SameTallies ys) (SameTallies xs) (shuffle i ys end) (shuffle-Yields i ys end)
            (λ zs g p. g p ∙ h p)))

-- Any character passes.
abbrev pub any : ℕ → Bool
any x = true

-- `n` characters of the alphabet have been added.
pub record Grown (n : ℕ) (xs ys : List ℕ) : Type 0 where
  pub size : tally any ys ≡ tally any xs + n
  pub alphabet : tally (belongs all_characters) ys ≡ tally (belongs all_characters) xs + n
  pub kept : (p : ℕ → Bool) → tally p xs ≤ tally p ys

pub fill_up-Yields :
    (n : ℕ) (xs : List ℕ) (draws : List ℕ) → Yields (Grown n xs) (fill_up n xs draws)
unfolding fill_up
fill_up-Yields zero xs draws = record {
  size = omega arith;
  alphabet = omega arith;
  kept = λ p. omega arith;
}
fill_up-Yields (suc n) xs draws =
    continue-Yields (λ c. belongs all_characters c ≡ true) (Grown (suc n) xs)
      (pick all_characters draws) _ (pick-Yields all_characters draws)
      (λ c rest b.
        weaken (Grown n (xs ++ c ∷ [])) (Grown (suc n) xs) (fill_up n (xs ++ c ∷ []) rest)
          (fill_up-Yields n (xs ++ c ∷ []) rest)
          (λ ys g. record {
            size = omega (arith, g.size, tally-append any xs (c ∷ []));
            alphabet = grind (arith, g.alphabet, tally-append (belongs all_characters) xs (c ∷ []));
            kept = λ p. omega (arith, g.kept p, tally-append p xs (c ∷ []));
          }))
