-- ===== src/Futex/Hash.antt =====
-- The size of the futex table of kernel/k_futex.c.
use yomotsu.Base.{ℕ, zero, suc, ◌/◌, ◌^◌, ◌≤◌, ◌<◌, ◌≡◌, refl, false, arith, ◌==◌, pow-suc, add-one}
use yomotsu.Futex.{bit_length, round_to_power_of_2}

bit_length-zero : (n : ℕ) → bit_length n 0 ≡ 0
unfolding bit_length
bit_length-zero zero = refl
bit_length-zero (suc n) = refl

pow_pos : (j : ℕ) → 1 ≤ 2 ^ j
pow_pos zero = omega arith
pow_pos (suc j) = omega (arith, pow-suc 2 j, pow_pos j)

bit_length_lem : (n j val : ℕ) → 2 ^ j ≤ val → val < 2 ^ suc j → j < n → bit_length n val ≡ suc j
unfolding bit_length
bit_length_lem zero j val lo hi h = absurd (omega arith)
bit_length_lem (suc n) zero val lo hi h =
    let half : val / 2 ≡ 0 = omega arith in
    let one : (val == 0) ≡ false = ground arith in
    rw (one, bit_length, half, bit_length-zero n) refl
bit_length_lem (suc n) (suc j) val lo hi h =
    let p = pow-suc 2 j in
    let q = pow-suc 2 (suc j) in
    let one = pow_pos j in
    ground
      (arith, bit_length_lem n j (val / 2) (omega (arith, p)) (omega (arith, p, q)) (omega arith))

-- `round_to_power_of_2` of a value from 2 ^ j up to, but not including, 2 ^ (j + 1), for j from 1
-- to 28, is 2 ^ (j + 2): of a power of two it is four times that power.
pub round_to_power_of_2_lem :
    (j val : ℕ)
    → 1 ≤ j
    → j ≤ 28
    → 2 ^ j ≤ val
    → val < 2 ^ suc j
    → round_to_power_of_2 val ≡ 2 ^ suc (suc j)
unfolding round_to_power_of_2
round_to_power_of_2_lem j val pos small lo hi =
    let two : 2 ≤ val = at_least_two j pos lo in
    let ne : (val == 1) ≡ false = ground arith in
    rw (ne, round_to_power_of_2, bit_length_lem 64 j val lo hi (omega arith)) (rw add-one refl)
  where
    at_least_two : (j : ℕ) → 1 ≤ j → 2 ^ j ≤ val → 2 ≤ val
    at_least_two zero h l = absurd (omega arith)
    at_least_two (suc j) h l = omega (arith, pow-suc 2 j, pow_pos j)
