-- ===== src/Nerve/Password/Uniform.antt =====
-- The draws behind each index that randomInt answers.
use native.Mathlib.Nat.{mul-add-mod_self_right, mod-eq_of_lt, mul-le-mul_right}
use elektrine.Base.{
  ℕ, ◌+◌, ◌*◌, ◌/◌, ◌^◌, ◌≡◌, ◌<◌, ◌≤◌, refl, some, List, ◌∷◌, ltb, arith, if◌then◌else◌, inl, inr,
  Bool-cases, ltb→lt,
}
use elektrine.Nerve.Password.{random_int, limit}

ltb-multiples : (max q i n : ℕ) → i < max → ltb (q * max + i) (n * max) ≡ ltb q n
ltb-multiples max q i n h = elim (Bool-cases (ltb q n)) [
  | inl e ↦
      let below : q * max + max ≤ n * max = omega (arith, mul-le-mul_right max (ltb→lt q n e)) in
      rw e (ground (arith, below, h))
  | inr e ↦
      let above : n ≤ q = ground (arith, e) in rw e (ground (arith, mul-le-mul_right max above))
]

-- randomInt favours no index: an index `i` below `max` is answered for the draws
-- `q * max + i` with `q` below the quotient of 2 ^ 32 by `max`; with any other `q` the draw leaves
-- the answer to the draws behind it.
pub random_int_lem :
    (max q i : ℕ) (draws : List ℕ)
    → i < max
    → random_int max ((q * max + i) ∷ draws)
      ≡ (if ltb q (2 ^ 32 / max) then some (i, draws) else random_int max draws)
unfolding random_int limit
random_int_lem max q i draws h =
    rw (ltb-multiples max q i (2 ^ 32 / max) h, mul-add-mod_self_right q max i, mod-eq_of_lt h) refl
