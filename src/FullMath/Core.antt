-- ===== src/FullMath/Core.antt =====
-- About `mul_div_core`: the two ways of dividing the two-word product.
use Prim.Native.Nat.{bit_and}
use native.Mathlib.Nat.{mod-lt, div-add-mod', mod-eq_of_lt, add-mul-mod_self_right, mul-div_cancel}
use rm_uniswap.Prelude.{
  ℕ, ◌+◌, ◌-◌, ◌*◌, ◌/◌, ◌%◌, ◌^◌, ◌≤◌, ◌<◌, ◌≡◌, sym, ap, ◌∙◌, arith, inl, inr, true, not,
  Bool-cases, ◌==◌, ltb, if◌then◌else◌, lt_or_ge, le→leb, lt→leb, lt→ltb, le→ltb, le_div_of_mul_le,
  div_lt_of_lt_mul,
}
use rm_uniswap.Error.{ok, err, overflow}
use rm_uniswap.FullMath.{
  is_power_of_two, shift_product, mul_div_core, divide_by_inverse, mod_inv_u256,
}
use rm_uniswap.FullMath.Inverse.{mod_inv_u256_lem}
use rm_uniswap.FullMath.PowerOfTwo.{is_power_of_two-true, shift_product_lem}
use rm_uniswap.Word.{trailing_zeros, wrapping_mul, wrapping_sub, wrapping_neg}
use rm_uniswap.Word.Fields.{bit_and_mask}
use rm_uniswap.Word.Pow.{two_pow_pos, two_pow_add}
use rm_uniswap.Word.Count.{trailing_zeros_odd, trailing_zeros-bit_and_neg}

-- The remainder by a divisor of the modulus is the remainder of the low word.
mod_of_low : (n w d t : ℕ) → w ≡ t * d → n % w % d ≡ n % d
mod_of_low n w d t split = sym (
    ap (λ (u : ℕ). u % d) (omega (arith, div-add-mod' n w, ap (λ (u : ℕ). n / w * u) split))
    ∙ add-mul-mod_self_right (n % w) (n / w * t) d)

-- Multiplying by the inverse of the odd part divides by it.
multiply_by_inverse :
    (q o : ℕ) → o % 2 ≡ 1 → q < 2 ^ 256 → wrapping_mul 256 (q * o % 2 ^ 256) (mod_inv_u256 o) ≡ q
multiply_by_inverse q o odd h =
    inverse_cancel q o (mod_inv_u256 o) (2 ^ 256) h (mod_inv_u256_lem o odd)
  where
    inverse_cancel : (q o i w : ℕ) → q < w → o * i % w ≡ 1 → (q * o % w) * i % w ≡ q
    inverse_cancel q o i w h one =
        let n = q * o % w in
        let cut : q * o ≡ q * o / w * w + n = sym (div-add-mod' (q * o) w) in
        let inv : o * i ≡ o * i / w * w + 1 =
          sym (div-add-mod' (o * i) w) ∙ ap (λ (u : ℕ). o * i / w * w + u) one in
        let balance : n * i + q * o / w * i * w ≡ q + q * (o * i / w) * w =
          omega (arith, ap (λ (u : ℕ). u * i) cut, ap (λ (u : ℕ). q * u) inv) in
        sym (add-mul-mod_self_right (n * i) (q * o / w * i) w)
        ∙ ap (λ (u : ℕ). u % w) balance
        ∙ add-mul-mod_self_right q (q * (o * i / w)) w
        ∙ mod-eq_of_lt h

-- Subtracting the remainder with a borrow leaves the multiple of the denominator in two words.
subtract_remainder :
    (p r : ℕ)
    → r ≤ p
    → r < 2 ^ 256
    → (if ltb (p % 2 ^ 256) r then p / 2 ^ 256 - 1 else p / 2 ^ 256) * 2 ^ 256
        + wrapping_sub 256 (p % 2 ^ 256) r
      ≡ p - r
subtract_remainder p r h hr = elim (lt_or_ge (p % 2 ^ 256) r) [
  | inl lt ↦ rw (lt→ltb (p % 2 ^ 256) r lt) (omega arith)
  | inr ge ↦ rw (le→ltb (p % 2 ^ 256) r ge) (omega arith)
]

divide_by_inverse_lem :
    (p d : ℕ)
    → 0 < d
    → d < 2 ^ 256
    → p / d < 2 ^ 256
    → divide_by_inverse (p % 2 ^ 256) (p / 2 ^ 256) d (p % d) ≡ p / d
unfolding divide_by_inverse
divide_by_inverse_lem p d pos hd h =
    let r = p % d in
    let q = p / d in
    let low = wrapping_sub 256 (p % 2 ^ 256) r in
    let high = if ltb (p % 2 ^ 256) r then p / 2 ^ 256 - 1 else p / 2 ^ 256 in
    let s = trailing_zeros 256 d in
    let (k, odd, lt) = trailing_zeros_odd 256 d pos hd in
    let o = 2 * k + 1 in
    let below : r < d = mod-lt p {m = d} pos in
    let words : high * 2 ^ 256 + low ≡ p - r =
      subtract_remainder p r (omega (arith, div-add-mod' p d)) (omega arith) in
    let multiple : high * 2 ^ 256 + low ≡ q * o * 2 ^ s =
      words ∙ omega (arith, div-add-mod' p d, ap (λ (u : ℕ). q * u) odd) in
    let negated : wrapping_neg 256 d ≡ 2 ^ 256 - d = omega arith in
    let part : d / 2 ^ s ≡ o =
      ap (λ (u : ℕ). u / 2 ^ s) odd ∙ mul-div_cancel o {n = 2 ^ s} (two_pow_pos s) in
    let shifted : shift_product low high s ≡ q * o % 2 ^ 256 =
      shift_product_lem low high s (omega arith) (omega arith)
      ∙ ap (λ (u : ℕ). u / 2 ^ s % 2 ^ 256) multiple
      ∙ ap (λ (u : ℕ). u % 2 ^ 256) (mul-div_cancel (q * o) {n = 2 ^ s} (two_pow_pos s)) in
    rw (negated, trailing_zeros-bit_and_neg 256 d pos hd, part, shifted)
      (multiply_by_inverse q o (omega arith) h)

power_of_two_quotient :
    (p d : ℕ)
    → d < 2 ^ 256
    → p / d < 2 ^ 256
    → is_power_of_two d ≡ true
    → (shift_product (p % 2 ^ 256) (p / 2 ^ 256) (trailing_zeros 256 d) ≡ p / d)
      × (bit_and (p % 2 ^ 256) (d - 1) ≡ p % d)
power_of_two_quotient p d hd h test =
    let s = trailing_zeros 256 d in
    let (e, lt) = is_power_of_two-true d hd test in
    let quotient : shift_product (p % 2 ^ 256) (p / 2 ^ 256) s ≡ p / d =
      shift_product_lem (p % 2 ^ 256) (p / 2 ^ 256) s (omega arith) (omega arith)
      ∙ ap (λ (u : ℕ). u / 2 ^ s % 2 ^ 256) (div-add-mod' p (2 ^ 256))
      ∙ ap (λ (u : ℕ). p / u % 2 ^ 256) (sym e)
      ∙ mod-eq_of_lt h in
    let remainder : bit_and (p % 2 ^ 256) (d - 1) ≡ p % d =
      ap (λ (u : ℕ). bit_and (p % 2 ^ 256) (u - 1)) e
      ∙ bit_and_mask s (p % 2 ^ 256)
      ∙ mod_of_low p (2 ^ 256) (2 ^ s) (2 ^ (256 - s)) (two_pow_add (256 - s) s 256 (omega arith))
      ∙ ap (λ (u : ℕ). p % u) (sym e) in
    (quotient, remainder)

-- The quotient fits exactly where the high word is below the denominator; then it is exact, and the
-- flag tells whether there is a remainder.
pub mul_div_core_lem :
    (p d : ℕ)
    → 0 < d
    → d < 2 ^ 256
    → mul_div_core (p % 2 ^ 256) (p / 2 ^ 256) d p
      ≡ (if ltb (p / d) (2 ^ 256) then ok (p / d, not (p % d == 0)) else err overflow)
unfolding mul_div_core
mul_div_core_lem p d pos hd = elim (lt_or_ge (p / 2 ^ 256) d) [
  | inr ge ↦
      let big : 2 ^ 256 ≤ p / d = le_div_of_mul_le p d (2 ^ 256) pos (omega arith) in
      rw (le→leb d (p / 2 ^ 256) ge, le→ltb (p / d) (2 ^ 256) big)
  | inl lt ↦
      let small : p / d < 2 ^ 256 = div_lt_of_lt_mul p d (2 ^ 256) pos (omega arith) in
      rw (lt→leb d (p / 2 ^ 256) lt, lt→ltb (p / d) (2 ^ 256) small)
        (elim (Bool-cases (is_power_of_two d)) [
          | inl test ↦
              let (quotient, remainder) = power_of_two_quotient p d hd small test in
              rw (test, quotient, remainder)
          | inr test ↦ rw (test, divide_by_inverse_lem p d pos hd small)
        ])
]
