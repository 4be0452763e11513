-- ===== src/Nerve/Password/Tests.antt =====
-- A password from 47 draws.
use elektrine.Base.{ℕ, zero, suc, ◌≡◌, refl, true, some, List, [], ◌∷◌, is_some, arith}
use elektrine.Nerve.Password.{random_int, create_password}
use elektrine.Nerve.Password.Uniform.{random_int_lem}
use elektrine.Nerve.Password.Made.{IsPassword, create_password-IsPassword}
use elektrine.Nerve.Password.Draws.{Fair, create_password-is_some}

abbrev ones : ℕ → List ℕ
ones zero = []
ones (suc n) = 1 ∷ ones n

-- A draw that is too high is drawn again.
random_int_test : random_int 10 (4294967290 ∷ 4294967289 ∷ []) ≡ some (9, [])
unfolding random_int
random_int_test = refl

abbrev made : List ℕ
made =
    98 ∷ 49 ∷ 64 ∷ 98 ∷ 98 ∷ 98 ∷ 98 ∷ 98 ∷ 98 ∷ 98 ∷ 98 ∷ 98 ∷ 98 ∷ 98 ∷ 98 ∷ 98 ∷ 98 ∷ 98 ∷ 98
    ∷ 98 ∷ 98 ∷ 98 ∷ 98 ∷ 66 ∷ []

made_test : create_password (ones 47) ≡ some (made, [])
unfolding create_password
made_test = refl

create_password-IsPassword_example : IsPassword made
create_password-IsPassword_example = create_password-IsPassword (ones 47) [] made made_test

ones-Fair : Fair 47 (ones 47)
ones-Fair = record { low = omega arith; many = omega arith }

create_password-is_some_example : is_some (create_password (ones 47)) ≡ true
create_password-is_some_example = create_password-is_some (ones 47) ones-Fair

random_int_lem_example : random_int 10 (37 ∷ []) ≡ some (7, [])
random_int_lem_example = random_int_lem 10 3 7 [] (omega arith)
