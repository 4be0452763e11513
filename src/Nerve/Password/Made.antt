-- ===== src/Nerve/Password/Made.antt =====
-- The password that createPassword makes.
use mathlib.Core.Path.{subst}
use elektrine.Base.{
  ℕ, ◌≡◌, ◌≤◌, refl, ◌∙◌, Bool, true, ◌||◌, some, List, [], ◌∷◌, ◌++◌, length, arith,
}
use elektrine.Nerve.Password.{
  password_length, lowercase, uppercase, digits, symbols, all_characters, create_password,
}
use elektrine.Nerve.Password.Classes.{
  Yields, belongs, tally, any, Grown, SameTallies, continue-Yields, weaken, pick-Yields,
  fill_up-Yields, shuffle-Yields,
}

-- As long as it must be, over the alphabet, and with a character of each class.
pub record IsPassword (chars : List ℕ) : Type 0 where
  pub size : length chars ≡ password_length
  pub alphabet : tally (belongs all_characters) chars ≡ password_length
  pub has_lowercase : 1 ≤ tally (belongs lowercase) chars
  pub has_uppercase : 1 ≤ tally (belongs uppercase) chars
  pub has_digit : 1 ≤ tally (belongs digits) chars
  pub has_symbol : 1 ≤ tally (belongs symbols) chars

length_of_tally : (xs : List ℕ) → length xs ≡ tally any xs
length_of_tally [] = refl
length_of_tally (x ∷ xs) = omega (arith, length_of_tally xs)

belongs-append : (xs ys : List ℕ) (x : ℕ) → belongs (xs ++ ys) x ≡ (belongs xs x || belongs ys x)
belongs-append [] ys x = refl
belongs-append (y ∷ xs) ys x = ground (arith, belongs-append xs ys x)

belongs-all :
    (x : ℕ)
    → belongs all_characters x
      ≡ (belongs lowercase x || belongs uppercase x || belongs digits x || belongs symbols x)
belongs-all x =
    rw
      (
        belongs-append (lowercase ++ uppercase ++ digits) symbols x,
        belongs-append (lowercase ++ uppercase) digits x,
        belongs-append lowercase uppercase x,
      )
      refl

-- A test that one of the four first characters passes.
passed :
    (p : ℕ → Bool) (a b c d : ℕ) (ys zs : List ℕ)
    → (p a || p b || p c || p d) ≡ true
    → tally p (a ∷ b ∷ c ∷ d ∷ []) ≤ tally p ys
    → tally p zs ≡ tally p ys
    → 1 ≤ tally p zs
passed p a b c d ys zs e kept same = ground arith

or_first : (w x y z : Bool) → w ≡ true → (w || x || y || z) ≡ true
or_first w x y z e = ground arith

or_second : (w x y z : Bool) → x ≡ true → (w || x || y || z) ≡ true
or_second w x y z e = ground arith

or_third : (w x y z : Bool) → y ≡ true → (w || x || y || z) ≡ true
or_third w x y z e = ground arith

or_fourth : (w x y z : Bool) → z ≡ true → (w || x || y || z) ≡ true
or_fourth w x y z e = ground arith

in_first : (p : ℕ → Bool) (a b c d : ℕ) → p a ≡ true → (p a || p b || p c || p d) ≡ true
in_first p a b c d e = or_first (p a) (p b) (p c) (p d) e

in_second : (p : ℕ → Bool) (a b c d : ℕ) → p b ≡ true → (p a || p b || p c || p d) ≡ true
in_second p a b c d e = or_second (p a) (p b) (p c) (p d) e

in_third : (p : ℕ → Bool) (a b c d : ℕ) → p c ≡ true → (p a || p b || p c || p d) ≡ true
in_third p a b c d e = or_third (p a) (p b) (p c) (p d) e

in_fourth : (p : ℕ → Bool) (a b c d : ℕ) → p d ≡ true → (p a || p b || p c || p d) ≡ true
in_fourth p a b c d e = or_fourth (p a) (p b) (p c) (p d) e

all_passed :
    (p : ℕ → Bool) (a b c d : ℕ)
    → p a ≡ true
    → p b ≡ true
    → p c ≡ true
    → p d ≡ true
    → tally p (a ∷ b ∷ c ∷ d ∷ []) ≡ 4
all_passed p a b c d e f g h = ground arith

four_characters :
    (a b c d : ℕ) (ys zs : List ℕ)
    → belongs lowercase a ≡ true
    → belongs uppercase b ≡ true
    → belongs digits c ≡ true
    → belongs symbols d ≡ true
    → Grown 20 (a ∷ b ∷ c ∷ d ∷ []) ys
    → SameTallies ys zs
    → IsPassword zs
four_characters a b c d ys zs p q r s g same = record {
  size = omega (arith, length_of_tally zs, same any, g.size);
  alphabet = omega (
    arith,
    same (belongs all_characters),
    g.alphabet,
    all_passed (belongs all_characters) a b c d
        (belongs-all a
          ∙ or_first (belongs lowercase a) (belongs uppercase a) (belongs digits a)
              (belongs symbols a) p)
        (belongs-all b
          ∙ or_second (belongs lowercase b) (belongs uppercase b) (belongs digits b)
              (belongs symbols b) q)
        (belongs-all c
          ∙ or_third (belongs lowercase c) (belongs uppercase c) (belongs digits c)
              (belongs symbols c) r)
        (belongs-all d
          ∙ or_fourth (belongs lowercase d) (belongs uppercase d) (belongs digits d)
              (belongs symbols d) s),
  );
  has_lowercase =
      passed (belongs lowercase) a b c d ys zs (in_first (belongs lowercase) a b c d p) (g.kept _)
        (same _);
  has_uppercase =
      passed (belongs uppercase) a b c d ys zs (in_second (belongs uppercase) a b c d q) (g.kept _)
        (same _);
  has_digit =
      passed (belongs digits) a b c d ys zs (in_third (belongs digits) a b c d r) (g.kept _)
        (same _);
  has_symbol =
      passed (belongs symbols) a b c d ys zs (in_fourth (belongs symbols) a b c d s) (g.kept _)
        (same _);
}

create_password-Yields : (draws : List ℕ) → Yields IsPassword (create_password draws)
unfolding create_password
create_password-Yields draws =
    continue-Yields _ IsPassword _ _ (pick-Yields lowercase draws) (λ a draws_a p.
      continue-Yields _ IsPassword _ _ (pick-Yields uppercase draws_a) (λ b draws_b q.
        continue-Yields _ IsPassword _ _ (pick-Yields digits draws_b) (λ c draws_c r.
          continue-Yields _ IsPassword _ _ (pick-Yields symbols draws_c) (λ d draws_d s.
            continue-Yields _ IsPassword _ _ (fill_up-Yields 20 (a ∷ b ∷ c ∷ d ∷ []) draws_d)
              (λ ys draws_y g.
                weaken (SameTallies ys) IsPassword _ (shuffle-Yields _ ys draws_y)
                  (λ zs same. four_characters a b c d ys zs p q r s g same))))))

-- A password that is made has 24 characters, all from the four classes together, and at least
-- one from each class.
pub create_password-IsPassword :
    (draws rest chars : List ℕ) → create_password draws ≡ some (chars, rest) → IsPassword chars
create_password-IsPassword draws rest chars e =
    subst (Yields IsPassword) e (create_password-Yields draws)
