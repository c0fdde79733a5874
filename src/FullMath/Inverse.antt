-- ===== src/FullMath/Inverse.antt =====
-- About `mod_inv_u256` and its Newton steps.
use Prim.Native.Nat.{bit_xor}
use native.Mathlib.Nat.{add-mul-mod_self_right, mod-eq_of_lt, div-add-mod'}
use rm_uniswap.Prelude.{
  ℕ, ◌+◌, ◌-◌, ◌*◌, ◌/◌, ◌%◌, ◌^◌, ◌≤◌, ◌<◌, ◌≡◌, refl, sym, ap, ◌∙◌, arith, inl, inr, ◌⊎◌, mul_lt,
  Bool, true, ◌||◌, ◌==◌,
}
use rm_uniswap.Word.Table.{holds_below, holds_below_at}
use rm_uniswap.FullMath.{newton_step, mod_inv_u256}
use rm_uniswap.Word.{wrapping_sub}
use rm_uniswap.Word.Bits.{bit_xor_digit, bit_xor-zero, differ_zero, differ_one}

cong_one : (a p z m : ℕ) → 1 < m → a + p * m ≡ 1 + z * m → a % m ≡ 1
cong_one a p z m h e =
    sym (add-mul-mod_self_right a p m)
    ∙ ap (λ (t : ℕ). t % m) e
    ∙ add-mul-mod_self_right 1 z m
    ∙ mod-eq_of_lt h

-- `2 - e` in a word: with `e` it makes two, up to a multiple of 2^256.
two_minus : (e : ℕ) → (c : ℕ) × (wrapping_sub 256 2 (e % 2 ^ 256) + e ≡ 2 + c * 2 ^ 256)
two_minus e = elim lt_two [
  | inl h ↦ (e / 2 ^ 256, omega arith)
  | inr h ↦ (e / 2 ^ 256 + 1, omega arith)
]
  where
    lt_two : (e % 2 ^ 256 ≤ 2) ⊎ (2 < e % 2 ^ 256)
    lt_two = omega arith

-- One step of the identity e * (2 - e) = 1 - (e - 1)^2, with e = 1 + m * k.
newton_identity :
    (e y c t m k : ℕ)
    → e ≡ 1 + m * k
    → y + e ≡ 2 + c * (k * k * t)
    → e * y + m * m * (k * k) ≡ 1 + c * t * e * (k * k)
newton_identity e y c t m k he hy =
    let square : e * e ≡ 1 + 2 * (m * k) + m * m * (k * k) = rw he (omega arith) in
    omega (arith, ap (λ (u : ℕ). e * u) hy, square)

-- Cutting the product `x * y` to a word changes `d * (x * y)` by a multiple of k^2.
newton_cut :
    (d x y g n t k rest z w : ℕ)
    → g * w + n ≡ x * y
    → k * k * t ≡ w
    → d * x * y + rest * (k * k) ≡ 1 + z * (k * k)
    → d * n + (d * g * t + rest) * (k * k) ≡ 1 + z * (k * k)
newton_cut d x y g n t k rest z w cut split h =
    omega (arith, ap (λ (u : ℕ). d * u) cut, ap (λ (u : ℕ). d * g * u) split)

newton_step_doubles :
    (d x k t : ℕ) → 1 < k → k * k * t ≡ 2 ^ 256 → d * x % k ≡ 1 → d * newton_step d x % (k * k) ≡ 1
unfolding newton_step
newton_step_doubles d x k t h split one =
    let e = d * x in
    let y = wrapping_sub 256 2 (e % 2 ^ 256) in
    let (c, sum) = two_minus e in
    let g = x * y / 2 ^ 256 in
    let n = x * y % 2 ^ 256 in
    let m = e / k in
    let identity = newton_identity e y c t m k (omega (arith, div-add-mod' e k)) (rw split sum) in
    cong_one (d * n) (d * g * t + m * m) (c * t * e) (k * k) (omega (arith, mul_lt 1 1 k k h h)) (
      newton_cut d x y g n t k (m * m) (c * t * e) (2 ^ 256) (div-add-mod' (x * y) (2 ^ 256)) split
        identity)

-- `u ^ 2` flips the second digit.
xor_two : (u : ℕ) → bit_xor u 2 ≡ u / 4 * 4 + (1 - u / 2 % 2) * 2 + u % 2
xor_two u = omega (
  arith,
  bit_xor_digit u 2,
  bit_xor_digit (u / 2) 1,
  bit_xor-zero (u / 2 / 2),
  differ_zero (u % 2),
  differ_one (u / 2 % 2) (omega arith),
)

mul_mod_16 : (a b : ℕ) → a * b % 16 ≡ a % 16 * (b % 16) % 16
mul_mod_16 a b = omega (
  arith,
  ap (λ (t : ℕ). t * b) (div-add-mod' a 16),
  ap (λ (t : ℕ). a % 16 * t) (div-add-mod' b 16),
)

-- The seed at the remainder of `d` by 16, for each of its odd values.
abbrev seed_check : ℕ → Bool
seed_check r = (r % 2 == 0) || (r * (bit_xor (3 * r) 2 % 16) % 16 == 1)

seed_checks : holds_below seed_check 16 ≡ true
unfolding holds_below
seed_checks = refl

seed_table : (r : ℕ) → r < 16 → r % 2 ≡ 1 → r * (bit_xor (3 * r) 2 % 16) % 16 ≡ 1
seed_table r h odd = ground (arith, holds_below_at seed_check 16 r h seed_checks)

-- The seed `3 * d ^ 2` is the inverse of an odd `d` up to 2^4.
seed_low : (d : ℕ) → d % 2 ≡ 1 → d * bit_xor (3 * d % 2 ^ 256) 2 % 16 ≡ 1
seed_low d odd =
    let u = 3 * d % 2 ^ 256 in
    let r = d % 16 in
    let low : bit_xor u 2 % 16 ≡ bit_xor (3 * r) 2 % 16 =
      omega (arith, xor_two u, xor_two (3 * r)) in
    mul_mod_16 d (bit_xor u 2) ∙ rw low (seed_table r (omega arith) (omega arith))

-- For an odd `d`, `d * mod_inv_u256 d` is one modulo 2^256.
pub mod_inv_u256_lem : (d : ℕ) → d % 2 ≡ 1 → d * mod_inv_u256 d % 2 ^ 256 ≡ 1
unfolding mod_inv_u256
mod_inv_u256_lem d odd =
    let seed = bit_xor (3 * d % 2 ^ 256) 2 in
    let x1 = newton_step d seed in
    let x2 = newton_step d x1 in
    let x3 = newton_step d x2 in
    let x4 = newton_step d x3 in
    let x5 = newton_step d x4 in
    let h0 = seed_low d odd in
    let h1 = newton_step_doubles d seed 16 (2 ^ 248) (omega arith) refl h0 in
    let h2 = newton_step_doubles d x1 (2 ^ 8) (2 ^ 240) (omega arith) refl h1 in
    let h3 = newton_step_doubles d x2 (2 ^ 16) (2 ^ 224) (omega arith) refl h2 in
    let h4 = newton_step_doubles d x3 (2 ^ 32) (2 ^ 192) (omega arith) refl h3 in
    let h5 = newton_step_doubles d x4 (2 ^ 64) (2 ^ 128) (omega arith) refl h4 in
    newton_step_doubles d x5 (2 ^ 128) 1 (omega arith) refl h5
