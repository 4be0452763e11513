-- ===== src/Nerve/Password/Draws.antt =====
-- How many draws createPassword waits for.
use mathlib.Core.Path.{subst}
use native.Mathlib.Nat.{mod-lt, lt-div-mul-add}
use elektrine.Base.{
  ℕ, zero, suc, ◌+◌, ◌-◌, ◌%◌, ◌≡◌, ◌≤◌, ◌<◌, refl, ◌∙◌, true, Option, some, List, [], ◌∷◌, ◌++◌,
  ltb, length, length-append, All, is_some, arith,
}
use elektrine.Nerve.Password.{
  lowercase, uppercase, digits, symbols, all_characters, Draw, continue, at, set_at, limit,
  random_int, pick, fill_up, swap, shuffle, create_password,
}

-- At least `k` draws, all of them below 2 ^ 32 - 76: no alphabet rejects them.
pub record Fair (k : ℕ) (draws : List ℕ) : Type 0 where
  pub low : All (λ v. v < 4294967220) draws
  pub many : k ≤ length draws

Fair-le : {k m : ℕ} {draws : List ℕ} → Fair m draws → k ≤ m → Fair k draws
Fair-le f h = record { low = f.low; many = omega (arith, f.many, h) }

-- A result, with what holds of it, and `k` fair draws left.
record Gives (A : Type 0) (k : ℕ) (P : A → Type 0) (r : Option (A × List ℕ)) : Type 0 where
  value : A
  rest : List ℕ
  given : r ≡ some (value, rest)
  holds : P value
  left : Fair k rest

continue-Gives :
    {A B : Type 0} (k j : ℕ) (P : A → Type 0) (Q : B → Type 0) (r : Option (A × List ℕ))
    (f : A → Draw B)
    → Gives A k P r
    → ((a : A) (draws : List ℕ) → P a → Fair k draws → Gives B j Q (f a draws))
    → Gives B j Q (continue r f)
continue-Gives {B = B} k j P Q r f g h = rw g.given (h g.value g.rest g.holds g.left)

limit_high : (max : ℕ) → 1 ≤ max → max ≤ 76 → 4294967220 < limit max
unfolding limit
limit_high max low high = omega (arith, lt-div-mul-add {a = 4294967296} {b = max} low)

random_int-Gives :
    (max k : ℕ) (draws : List ℕ)
    → 1 ≤ max
    → max ≤ 76
    → Fair (suc k) draws
    → Gives ℕ k (λ i. i < max) (random_int max draws)
unfolding random_int
random_int-Gives max k [] low high f = absurd (omega (arith, f.many))
random_int-Gives max k (v ∷ draws) low high f =
    let small : ltb v (limit max) ≡ true = ground (arith, f.low.0, limit_high max low high) in
    rw small (record {
      value = v % max;
      rest = draws;
      given = refl;
      holds = mod-lt v low;
      left = record { low = f.low.1; many = omega (arith, f.many) };
    })

found-Gives :
    (xs : List ℕ) (i k : ℕ) (draws : List ℕ)
    → i < length xs
    → Fair k draws
    → Gives ℕ k (λ x. Unit) (at xs i draws)
found-Gives [] i k draws h f = absurd (omega (arith, h))
found-Gives (x ∷ xs) zero k draws h f = record {
  value = x;
  rest = draws;
  given = refl;
  holds = tt;
  left = f;
}
found-Gives (x ∷ xs) (suc i) k draws h f = found-Gives xs i k draws (omega (arith, h)) f

pick-Gives :
    (xs : List ℕ) (k : ℕ) (draws : List ℕ)
    → 1 ≤ length xs
    → length xs ≤ 76
    → Fair (suc k) draws
    → Gives ℕ k (λ x. Unit) (pick xs draws)
unfolding pick
pick-Gives xs k draws low high f =
    continue-Gives k k (λ i. i < length xs) (λ x. Unit) (random_int (length xs) draws)
      (λ i. at xs i) (random_int-Gives (length xs) k draws low high f)
      (λ i rest h left. found-Gives xs i k rest h left)

fill_up-Gives :
    (n k : ℕ) (xs : List ℕ) (draws : List ℕ)
    → Fair (n + k) draws
    → Gives (List ℕ) k (λ ys. length ys ≡ length xs + n) (fill_up n xs draws)
unfolding fill_up
fill_up-Gives zero k xs draws f = record {
  value = xs;
  rest = draws;
  given = refl;
  holds = omega arith;
  left = Fair-le f (omega arith);
}
fill_up-Gives (suc n) k xs draws f =
    continue-Gives (n + k) k (λ c. Unit) _ (pick all_characters draws) _
      (pick-Gives all_characters (n + k) draws (omega arith) (omega arith)
        (Fair-le f (omega arith)))
      (λ c rest u left.
        subst (λ m. Gives (List ℕ) k (λ ys. length ys ≡ m) (fill_up n (xs ++ c ∷ []) rest))
          (omega (arith, length-append xs (c ∷ []))) (fill_up-Gives n k (xs ++ c ∷ []) rest left))

length-set_at : (xs : List ℕ) (i y : ℕ) → length (set_at xs i y) ≡ length xs
length-set_at [] i y = refl
length-set_at (x ∷ xs) zero y = refl
length-set_at (x ∷ xs) (suc i) y = omega (arith, length-set_at xs i y)

swap-Gives :
    (xs : List ℕ) (i j k : ℕ) (draws : List ℕ)
    → i < length xs
    → j < length xs
    → Fair k draws
    → Gives (List ℕ) k (λ ys. length ys ≡ length xs) (swap xs i j draws)
swap-Gives xs i j k draws h g f =
    continue-Gives k k (λ x. Unit) _ (at xs i draws) _ (found-Gives xs i k draws h f)
      (λ x rest u left.
        continue-Gives k k (λ y. Unit) _ (at xs j rest) _ (found-Gives xs j k rest g left)
          (λ y end v last. record {
            value = set_at (set_at xs i y) j x;
            rest = end;
            given = refl;
            holds = length-set_at (set_at xs i y) j x ∙ length-set_at xs i y;
            left = last;
          }))

shuffle-Gives :
    (i k : ℕ) (xs : List ℕ) (draws : List ℕ)
    → i < length xs
    → i ≤ 75
    → Fair (i + k) draws
    → Gives (List ℕ) k (λ ys. Unit) (shuffle i xs draws)
unfolding shuffle
shuffle-Gives zero k xs draws h b f = record {
  value = xs;
  rest = draws;
  given = refl;
  holds = tt;
  left = Fair-le f (omega arith);
}
shuffle-Gives (suc i) k xs draws h b f =
    continue-Gives (i + k) k (λ j. j < suc i + 1) _ (random_int (suc i + 1) draws) _
      (random_int-Gives (suc i + 1) (i + k) draws (omega arith) (omega (arith, b))
        (Fair-le f (omega arith)))
      (λ j rest g left.
        continue-Gives (i + k) k (λ ys. length ys ≡ length xs) _ (swap xs (suc i) j rest) _
          (swap-Gives xs (suc i) j (i + k) rest h (omega (arith, g, h)) left)
          (λ ys end e last. shuffle-Gives i k ys end (omega (arith, e, h)) (omega (arith, b)) last))

four_picks :
    (f : ℕ → ℕ → ℕ → ℕ → Draw (List ℕ)) (draws : List ℕ)
    → Fair 47 draws
    → ((a b c d : ℕ) (rest : List ℕ)
        → Fair 43 rest
        → Gives (List ℕ) 0 (λ ys. Unit) (f a b c d rest))
    → Gives
        (List ℕ)
        0
        (λ ys. Unit)
        (continue (pick lowercase draws) λ a draws_a. continue (pick uppercase draws_a) λ b draws_b.
          continue
            (pick digits draws_b)
            λ c draws_c. continue (pick symbols draws_c) λ d. f a b c d)
four_picks f draws h g =
    continue-Gives 46 0 (λ x. Unit) _ (pick lowercase draws) _
      (pick-Gives lowercase 46 draws (omega arith) (omega arith) h)
      (λ a draws_a u h_a.
        continue-Gives 45 0 (λ x. Unit) _ (pick uppercase draws_a) _
          (pick-Gives uppercase 45 draws_a (omega arith) (omega arith) h_a)
          (λ b draws_b v h_b.
            continue-Gives 44 0 (λ x. Unit) _ (pick digits draws_b) _
              (pick-Gives digits 44 draws_b (omega arith) (omega arith) h_b)
              (λ c draws_c w h_c.
                continue-Gives 43 0 (λ x. Unit) _ (pick symbols draws_c) _
                  (pick-Gives symbols 43 draws_c (omega arith) (omega arith) h_c)
                  (λ d draws_d x h_d. g a b c d draws_d h_d))))

create_password-Gives :
    (draws : List ℕ) → Fair 47 draws → Gives (List ℕ) 0 (λ ys. Unit) (create_password draws)
unfolding create_password
create_password-Gives draws h = four_picks _ draws h (λ a b c d rest left.
    continue-Gives 23 0 (λ ys. length ys ≡ 24) _ (fill_up 20 (a ∷ b ∷ c ∷ d ∷ []) rest) _
      (fill_up-Gives 20 23 (a ∷ b ∷ c ∷ d ∷ []) rest left)
      (λ ys end e last.
        shuffle-Gives (length ys - 1) 0 ys end (omega (arith, e)) (omega (arith, e))
          (Fair-le last (omega (arith, e)))))

-- With 47 draws below 2 ^ 32 - 76 a password is made: none of these is rejected.
pub create_password-is_some :
    (draws : List ℕ) → Fair 47 draws → is_some (create_password draws) ≡ true
create_password-is_some draws h = rw (create_password-Gives draws h).given refl
