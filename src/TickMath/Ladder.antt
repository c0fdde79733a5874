-- ===== src/TickMath/Ladder.antt =====
-- About the loop of `get_sqrt_price_at_tick` over the set bits, and the reference's ladder over all bits.
use Prim.Native.Nat.{bit_and}
use mathlib.Core.Path.{subst}
use rm_uniswap.Prelude.{
  ℕ, zero, suc, ◌+◌, ◌-◌, ◌*◌, ◌/◌, ◌%◌, ◌^◌, ◌≤◌, ◌<◌, ◌≡◌, refl, sym, ap, ◌∙◌, arith, inl, inr,
  ◌==◌, if◌then◌else◌, pos_nonzero, ==_iff, Bool-cases, mul_le,
}
use rm_uniswap.FullMath.PowerOfTwo.{bit_and_pred}
use rm_uniswap.TickMath.{tick_ratio, multiply_bits, ratio_of}
use rm_uniswap.TickMath.Products.{mul_hi_u128_lem}
use rm_uniswap.Word.{trailing_zeros}
use rm_uniswap.Word.Count.{trailing_zeros_shifted, trailing_zeros_odd}
use rm_uniswap.Word.Pow.{two_pow_suc, two_pow_pos}

-- Uniswap's reference: for each of the next `n` bits of `b`, which stand for the entries from `i` on,
-- multiply by the entry where the bit is set.
unfoldable pub ladder : ℕ → ℕ → ℕ → ℕ → ℕ
ladder zero i b ratio = ratio
ladder (suc n) i b ratio =
    ladder n (suc i) (b / 2) (if b % 2 == 1 then ratio * tick_ratio i / 2 ^ 128 else ratio)

-- One turn of the loop, at an odd number shifted by `i`.
turn :
    (fuel q i ratio : ℕ)
    → i < 32
    → multiply_bits (suc fuel) ((2 * q + 1) * 2 ^ i) ratio
      ≡ multiply_bits fuel (2 * q * 2 ^ i) (ratio * tick_ratio i / 2 ^ 128)
unfolding multiply_bits
turn fuel q i ratio h =
    let some : 0 < (2 * q + 1) * 2 ^ i =
      omega (arith, mul_le 1 1 (2 * q + 1) (2 ^ i) (omega arith) (two_pow_pos i)) in
    rw (
      pos_nonzero ((2 * q + 1) * 2 ^ i) some,
      bit_and_pred i q,
      trailing_zeros_shifted 32 q i h,
      mul_hi_u128_lem ratio (tick_ratio i),
    )

-- With no bits left the loop stops.
stop : (fuel ratio : ℕ) → multiply_bits fuel 0 ratio ≡ ratio
unfolding multiply_bits
stop zero ratio = refl
stop (suc fuel) ratio = refl

-- With fuel for `n` bits the loop over the set bits is the ladder over all `n` bits.
multiply_bits-ladder :
    (n fuel i b ratio : ℕ)
    → b < 2 ^ n
    → n ≤ fuel
    → n + i ≤ 32
    → multiply_bits fuel (b * 2 ^ i) ratio ≡ ladder n i b ratio
unfolding ladder
multiply_bits-ladder zero fuel i b ratio hb hf hi =
    let none : b ≡ 0 = omega arith in
    let nothing : b * 2 ^ i ≡ 0 = omega (arith, ap (λ (t : ℕ). t * 2 ^ i) none) in
    rw nothing (stop fuel ratio)
multiply_bits-ladder (suc n) zero i b ratio hb hf hi = absurd (omega arith)
multiply_bits-ladder (suc n) (suc fuel) i b ratio hb hf hi =
    let q = b / 2 in
    let q_lt : q < 2 ^ n = omega (arith, two_pow_suc n) in
    let next = two_pow_suc i in
    elim (Bool-cases (b % 2 == 1)) [
      | inl odd ↦
          let one : b % 2 ≡ 1 = (==_iff (b % 2) 1).0 odd in
          let whole : b ≡ 2 * q + 1 = omega arith in
          let left : 2 * q * 2 ^ i ≡ q * 2 ^ suc i = omega (arith, ap (λ (t : ℕ). q * t) next) in
          rw odd (
            ap (λ (t : ℕ). multiply_bits (suc fuel) (t * 2 ^ i) ratio) whole
            ∙ turn fuel q i ratio (omega arith)
            ∙ ap (λ (t : ℕ). multiply_bits fuel t (ratio * tick_ratio i / 2 ^ 128)) left
            ∙ multiply_bits-ladder n fuel (suc i) q (ratio * tick_ratio i / 2 ^ 128) q_lt
                (omega arith) (omega arith))
      | inr even ↦
          let zero_bit : b % 2 ≡ 0 = ground arith in
          let whole : b * 2 ^ i ≡ q * 2 ^ suc i = omega (
            arith,
            ap (λ (t : ℕ). q * t) next,
            ap (λ (t : ℕ). t * 2 ^ i) (omega_half b zero_bit),
          ) in
          rw even (
            ap (λ (t : ℕ). multiply_bits (suc fuel) t ratio) whole
            ∙ multiply_bits-ladder n (suc fuel) (suc i) q ratio q_lt (omega arith) (omega arith))
    ]
  where
    omega_half : (b : ℕ) → b % 2 ≡ 0 → b ≡ 2 * (b / 2)
    omega_half b e = omega arith

-- For a nonzero `t` below 2^20, the loop over the set bits on fuel 20 computes the product over all
-- 20 bits: start from 2^128, and for every set bit multiply by its entry and divide by 2^128,
-- rounded down.
pub ratio_of-ladder : (t : ℕ) → 0 < t → t < 2 ^ 20 → ratio_of t ≡ ladder 20 0 t (2 ^ 128)
unfolding ratio_of
ratio_of-ladder t positive h =
    let (q, e, lt) = trailing_zeros_odd 32 t positive (omega arith) in
    let k = trailing_zeros 32 t in
    let cleared : bit_and t (t - 1) ≡ 2 * q * 2 ^ k =
      subst (λ (y : ℕ). bit_and y (y - 1) ≡ 2 * q * 2 ^ k) (sym e) (bit_and_pred k q) in
    let first : 2 ^ 128 * tick_ratio k / 2 ^ 128 ≡ tick_ratio k = omega arith in
    let unshifted : t * 2 ^ 0 ≡ t = omega arith in
    rw cleared (
      ap (multiply_bits 20 (2 * q * 2 ^ k)) (sym first)
      ∙ sym (turn 20 q k (2 ^ 128) lt)
      ∙ ap (λ (y : ℕ). multiply_bits 21 y (2 ^ 128)) (sym e ∙ sym unshifted)
      ∙ multiply_bits-ladder 20 21 0 t (2 ^ 128) h (omega arith) (omega arith))
