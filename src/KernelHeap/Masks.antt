-- ===== src/KernelHeap/Masks.antt =====
-- `ALIGNDOWN` of kernel/k_memory.c as the bit mask that it is.
use yomotsu.Base.{
  ℕ, zero, suc, ◌+◌, ◌-◌, ◌*◌, ◌/◌, ◌%◌, ◌^◌, ◌≤◌, ◌<◌, ◌≡◌, ◌∙◌, ap, ◌&&◌, arith, ◌==◌,
  if◌then◌else◌, false, zero-add, pow-suc,
}
use yomotsu.KernelHeap.{align_down}
use native.Mathlib.Nat.{
  div-add-mod, mod-lt, mul-mod_right, add-mod, mod-eq_of_lt, mod-le, one-le-pow, mul_assoc,
}

-- `x & ~y` on words of `n` bits.
pub and_not : ℕ → ℕ → ℕ → ℕ
and_not zero x y = 0
and_not (suc n) x y =
    let rest = and_not n (x / 2) (y / 2) in
    2 * rest + (if (x % 2 == 1) && (y % 2 == 0) then 1 else 0)

and_not-zero : (n x : ℕ) → x < 2 ^ n → and_not n x 0 ≡ x
unfolding and_not
and_not-zero zero x lt = omega arith
and_not-zero (suc n) x lt =
    let twice = pow-suc 2 n in
    let rest = and_not-zero n (x / 2) (omega (arith, twice)) in ground (arith, rest)

-- The remainder by the double of `p` is that of the half, and the last bit.
mod-double : (x p : ℕ) → 1 ≤ p → x % (p * 2) ≡ 2 * (x / 2 % p) + x % 2
mod-double x p pos =
    let q = x / 2 / p in
    let parts = div-add-mod (x / 2) p in
    let low = mod-lt (x / 2) {m = p} pos in
    let product = mul_assoc p 2 q in
    let small : 2 * (x / 2 % p) + x % 2 < p * 2 = omega (arith, low) in
    let whole : x ≡ p * 2 * q + (2 * (x / 2 % p) + x % 2) = grind (arith, parts, product) in
    ap (λ y. y % (p * 2)) whole
    ∙ add-mod (p * 2 * q) (2 * (x / 2 % p) + x % 2) (p * 2)
    ∙ rw (mul-mod_right (p * 2) q, zero-add, mod-eq_of_lt small) (mod-eq_of_lt small)

-- For a power of two below the width of the word, the mask is what `align_down` says.
pub and_not-align_down :
    (n k x : ℕ) → x < 2 ^ n → k ≤ n → and_not n x (2 ^ k - 1) ≡ align_down x (2 ^ k)
unfolding and_not
and_not-align_down n zero x lt le = and_not-zero n x lt ∙ omega arith
and_not-align_down zero (suc k) x lt le = absurd (omega arith)
and_not-align_down (suc n) (suc k) x lt le =
    let twice = pow-suc 2 n in
    let twice_k = pow-suc 2 k in
    let pos = one-le-pow k 2 (omega arith) in
    let rest = and_not-align_down n k (x / 2) (omega (arith, twice)) (omega arith) in
    let low = mod-double x (2 ^ k) pos in
    let half : (2 ^ suc k - 1) / 2 ≡ 2 ^ k - 1 = omega (arith, twice_k, pos) in
    let odd : ((x % 2 == 1) && ((2 ^ suc k - 1) % 2 == 0)) ≡ false = ground (arith, twice_k, pos) in
    let wide : x % 2 ^ suc k ≡ 2 * (x / 2 % 2 ^ k) + x % 2 = ap (λ r. x % r) twice_k ∙ low in
    let small = mod-le (x / 2) (2 ^ k) in rw (half, odd, rest, wide) (omega (arith, small))
