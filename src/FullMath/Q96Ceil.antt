-- ===== src/FullMath/Q96Ceil.antt =====
-- About `mul_q96_div_rounding_up` and its shortcuts.
use Prim.Native.Nat.{bit_and}
use native.Mathlib.Nat.{mod-eq_of_lt, zero-div, div-le_self, div-add-mod', mod-lt, zero-mod}
use rm_uniswap.Prelude.{
  ℕ, ◌-◌, ◌*◌, ◌/◌, ◌%◌, ◌^◌, ◌≤◌, ◌<◌, ◌≡◌, refl, sym, ap, ◌∙◌, arith, inl, inr, not, Bool-cases,
  ◌==◌, ltb, leb, if◌then◌else◌, lt_or_ge, le→leb, lt→leb, div_ceil, div_ceil-cases,
  le_div_of_mul_le, mod_unique, div_lt_of_lt_mul,
}
use rm_uniswap.Error.{ok, err, overflow, ◌>>=◌}
use rm_uniswap.FullMath.{mul_q96_div_rounding_up, is_power_of_two, narrow, round_up_if_remainder}
use rm_uniswap.FullMath.Exact.{denominator-cases, round_up-eq, exact_ceil_one}
use rm_uniswap.FullMath.PowerOfTwo.{is_power_of_two-true}
use rm_uniswap.Ratio.{exact_ceil, exact_ceil_overflow, exact_ceil_multiple}
use rm_uniswap.Word.{trailing_zeros, ◌>>>◌, shl}
use rm_uniswap.Word.Fields.{bit_and_mask}
use rm_uniswap.Word.Pow.{two_pow_pos, two_pow_add, two_pow_le}
use rm_uniswap.FullMath.Q96.{guarded_shift, divide_below, divide_above, left_shift, nonzero-cases}

wide_ceil :
    (amount d : ℕ)
    → 0 < d
    → (if leb amount (2 ^ 256 - 1 >>> 96)
        then round_up_if_remainder (shl 256 amount 96 / d) (not (shl 256 amount 96 % d == 0))
        else if leb d (amount >>> 160)
        then err overflow
        else (narrow (amount * 2 ^ 96 / d) >>= λ quotient.
            round_up_if_remainder quotient (not (amount * 2 ^ 96 % d == 0))))
      ≡ exact_ceil (amount * 2 ^ 96) d
unfolding narrow
wide_ceil amount d pos = elim (lt_or_ge amount (2 ^ 160)) [
  | inl lt ↦
      let small : amount * 2 ^ 96 < 2 ^ 256 = omega arith in
      rw (le→leb amount (2 ^ 160 - 1) (omega arith), mod-eq_of_lt small)
        (round_up-eq (amount * 2 ^ 96) d pos (omega (arith, div-le_self (amount * 2 ^ 96) d)))
  | inr ge ↦ rw (lt→leb amount (2 ^ 160 - 1) (omega arith)) (elim (lt_or_ge (amount / 2 ^ 160) d) [
    | inr over ↦ rw (le→leb d (amount / 2 ^ 160) over) (
        sym (
          exact_ceil_overflow (amount * 2 ^ 96) d pos
            (le_div_of_mul_le (amount * 2 ^ 96) d (2 ^ 256) pos (omega arith))))
    | inl under ↦
        let q = amount * 2 ^ 96 / d in
        let small : q < 2 ^ 256 =
          div_lt_of_lt_mul (amount * 2 ^ 96) d (2 ^ 256) pos (omega arith) in
        let high : q / 2 ^ 256 ≡ 0 = omega arith in
        let low : q % 2 ^ 256 ≡ q = omega arith in
        rw (lt→leb d (amount / 2 ^ 160) under, high, low)
          (round_up-eq (amount * 2 ^ 96) d pos small)
  ])
]

-- The bits that the right shift drops are the remainder, scaled.
dropped_bits : (amount s : ℕ) → 96 ≤ s → amount * 2 ^ 96 % 2 ^ s ≡ amount % 2 ^ (s - 96) * 2 ^ 96
dropped_bits amount s h =
    let k = s - 96 in
    let split = two_pow_add k 96 s (omega arith) in
    mod_unique (2 ^ s) (amount / 2 ^ k) {n = amount * 2 ^ 96} {r = amount % 2 ^ k * 2 ^ 96}
      (omega (arith, div-add-mod' amount (2 ^ k), ap (λ (u : ℕ). amount / 2 ^ k * u) split))
      (omega (arith, split, mod-lt amount {m = 2 ^ k} (two_pow_pos k)))

power_ceil :
    (amount s : ℕ)
    → amount < 2 ^ 256
    → s < 256
    → (if leb s 96
        then (if 96 - s == 0
            then ok amount
            else if ltb (2 ^ 256 - 1 >>> (96 - s)) amount
            then err overflow
            else ok (shl 256 amount (96 - s)))
        else round_up_if_remainder
            (amount >>> (s - 96))
            (not (bit_and amount (shl 256 1 (s - 96) - 1) == 0)))
      ≡ exact_ceil (amount * 2 ^ 96) (2 ^ s)
power_ceil amount s ha hs = elim (lt_or_ge 96 s) [
  | inr le ↦ rw (le→leb s 96 le) (
      left_shift amount s ha
      ∙ sym (exact_ceil_multiple (amount * 2 ^ (96 - s)) (2 ^ s) (two_pow_pos s))
      ∙ ap (λ (u : ℕ). exact_ceil u (2 ^ s)) (sym (divide_below amount s le)))
  | inl gt ↦
      let k = s - 96 in
      let e = divide_above amount s (omega arith) in
      let fits : 1 * 2 ^ k < 2 ^ 256 = omega (arith, two_pow_le k 255 (omega arith)) in
      let mask : shl 256 1 k ≡ 2 ^ k = mod-eq_of_lt fits ∙ omega arith in
      let flag : (bit_and amount (2 ^ k - 1) == 0) ≡ (amount * 2 ^ 96 % 2 ^ s == 0) =
        rw (bit_and_mask k amount, dropped_bits amount s (omega arith)) (ground arith) in
      rw (lt→leb s 96 gt, mask, flag, ← e)
        (round_up-eq (amount * 2 ^ 96) (2 ^ s) (two_pow_pos s)
          (omega (arith, e, div-le_self amount (2 ^ k))))
]

exact_ceil_zero : (d : ℕ) → 0 < d → div_ceil 0 d ≡ 0
exact_ceil_zero d p = elim (div_ceil-cases 0 d) [
  | inl (z, e) ↦ e ∙ zero-div d
  | inr (z, e) ↦ absurd (omega (arith, zero-mod d))
]

-- For 256-bit operands `mul_q96_div_rounding_up` is the exact quotient of `amount * 2^96`, rounded up,
-- through each of its shortcuts; an error at a zero denominator, an overflow exactly where that
-- quotient leaves the word.
pub mul_q96_div_rounding_up_lem :
    (amount d : ℕ)
    → amount < 2 ^ 256
    → d < 2 ^ 256
    → mul_q96_div_rounding_up amount d ≡ exact_ceil (amount * 2 ^ 96) d
unfolding mul_q96_div_rounding_up
mul_q96_div_rounding_up_lem amount d ha hd = elim (denominator-cases d) [
  | inl z ↦ rw z refl
  | inr (inl one) ↦ rw one (elim (nonzero-cases amount) [
    | inl z ↦ rw (z, exact_ceil_zero 1 (omega arith)) refl
    | inr nz ↦ rw nz (guarded_shift amount 96 ∙ rw (exact_ceil_one (amount * 2 ^ 96)))
  ])
  | inr (inr (pos, z, one)) ↦ elim (nonzero-cases amount) [
    | inl az ↦ rw (az, z, exact_ceil_zero d pos) refl
    | inr nz ↦
        rw (nz, z, one)
          (elim (Bool-cases (is_power_of_two d)) [
            | inl test ↦
                let (e, lt) = is_power_of_two-true d hd test in
                rw test (
                  power_ceil amount (trailing_zeros 256 d) ha lt
                  ∙ ap (exact_ceil (amount * 2 ^ 96)) (sym e)
                  ∙ rw z)
            | inr test ↦ rw test (wide_ceil amount d pos ∙ rw z)
          ])
  ]
]
