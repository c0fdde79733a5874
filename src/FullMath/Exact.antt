-- ===== src/FullMath/Exact.antt =====
-- About `mul_div` and `mul_div_rounding_up`.
use native.Mathlib.Nat.{mod-eq_of_lt, div-one, mod-one, div-le_self}
use rm_uniswap.Prelude.{
  ℕ, zero, suc, ◌*◌, ◌/◌, ◌%◌, ◌^◌, ◌<◌, ◌≡◌, refl, sym, ◌∙◌, arith, inl, inr, ◌⊎◌, false, not,
  Bool-cases, ◌==◌, ltb, lt_or_ge, le→leb, lt→leb, lt→ltb, le→ltb, div_ceil, div_ceil-cases,
}
use rm_uniswap.FullMath.{mul_div, mul_div_rounding_up, round_up_if_remainder}
use rm_uniswap.FullMath.Core.{mul_div_core_lem}
use rm_uniswap.Ratio.{
  exact_floor, exact_ceil, exact_ceil_pos, round_up-exact_ceil, exact_ceil_overflow,
}

-- The cases that both routines tell apart.
pub denominator-cases :
    (d : ℕ) → (d ≡ 0) ⊎ ((d ≡ 1) ⊎ ((0 < d) × ((d == 0) ≡ false) × ((d == 1) ≡ false)))
denominator-cases zero = inl refl
denominator-cases (suc zero) = inr (inl refl)
denominator-cases (suc (suc d)) = inr (inr (omega arith, ground arith, ground arith))

-- For every product and every 256-bit denominator, `mul_div` is the exact quotient rounded down: an
-- error at a zero denominator, an overflow exactly where that quotient leaves the word.
pub mul_div_lem : (a b d : ℕ) → d < 2 ^ 256 → mul_div a b d ≡ exact_floor (a * b) d
unfolding mul_div
mul_div_lem a b d hd = elim (denominator-cases d) [
  | inl z ↦ rw z refl
  | inr (inl one) ↦
      rw (one, div-one (a * b))
        (elim (lt_or_ge (a * b) (2 ^ 256)) [
          | inl lt ↦ rw (lt→leb (2 ^ 256) (a * b) lt, lt→ltb (a * b) (2 ^ 256) lt, mod-eq_of_lt lt)
          | inr ge ↦ rw (le→leb (2 ^ 256) (a * b) ge, le→ltb (a * b) (2 ^ 256) ge)
        ])
  | inr (inr (pos, z, one)) ↦
      rw (z, one)
        (elim (lt_or_ge (a * b) (2 ^ 256)) [
          | inl lt ↦
              let small : a * b / d < 2 ^ 256 = omega (arith, div-le_self (a * b) d) in
              rw (lt→leb (2 ^ 256) (a * b) lt, lt→ltb (a * b / d) (2 ^ 256) small, mod-eq_of_lt lt)
          | inr ge ↦
              rw (le→leb (2 ^ 256) (a * b) ge, mul_div_core_lem (a * b) d pos hd)
                (elim (Bool-cases (ltb (a * b / d) (2 ^ 256))) [ inl e ↦ rw e | inr e ↦ rw e ])
        ])
]

pub round_up-eq :
    (n d : ℕ)
    → 0 < d
    → n / d < 2 ^ 256
    → round_up_if_remainder (n / d) (not (n % d == 0)) ≡ exact_ceil n d
unfolding round_up_if_remainder
round_up-eq n d pos h = elim (Bool-cases (n % d == 0)) [
  | inl e ↦ rw e (rw e at (round_up-exact_ceil n d pos h))
  | inr e ↦ rw e (rw e at (round_up-exact_ceil n d pos h))
]

pub exact_ceil_one : (n : ℕ) → div_ceil n 1 ≡ n
exact_ceil_one n = elim (div_ceil-cases n 1) [
  | inl (z, e) ↦ e ∙ div-one n
  | inr (z, e) ↦ absurd (omega (arith, mod-one n))
]

-- For every product and every 256-bit denominator, `mul_div_rounding_up` is the exact quotient rounded
-- up, an error at a zero denominator, an overflow exactly where that quotient leaves the word.
pub mul_div_rounding_up_lem :
    (a b d : ℕ) → d < 2 ^ 256 → mul_div_rounding_up a b d ≡ exact_ceil (a * b) d
unfolding mul_div_rounding_up
mul_div_rounding_up_lem a b d hd = elim (denominator-cases d) [
  | inl z ↦ rw z refl
  | inr (inl one) ↦
      rw (one, exact_ceil_one (a * b))
        (elim (lt_or_ge (a * b) (2 ^ 256)) [
          | inl lt ↦ rw (lt→leb (2 ^ 256) (a * b) lt, lt→ltb (a * b) (2 ^ 256) lt, mod-eq_of_lt lt)
          | inr ge ↦ rw (le→leb (2 ^ 256) (a * b) ge, le→ltb (a * b) (2 ^ 256) ge)
        ])
  | inr (inr (pos, z, one)) ↦
      rw (z, one)
        (elim (lt_or_ge (a * b) (2 ^ 256)) [
          | inl lt ↦
              let small : a * b / d < 2 ^ 256 = omega (arith, div-le_self (a * b) d) in
              rw (lt→leb (2 ^ 256) (a * b) lt, mod-eq_of_lt lt)
                (round_up-eq (a * b) d pos small ∙ exact_ceil_pos (a * b) d pos)
          | inr ge ↦
              rw (le→leb (2 ^ 256) (a * b) ge, mul_div_core_lem (a * b) d pos hd)
                (elim (lt_or_ge (a * b / d) (2 ^ 256)) [
                  | inl lt ↦
                      rw (lt→ltb (a * b / d) (2 ^ 256) lt)
                        (round_up-eq (a * b) d pos lt ∙ exact_ceil_pos (a * b) d pos)
                  | inr big ↦
                      rw (le→ltb (a * b / d) (2 ^ 256) big)
                        (sym (exact_ceil_overflow (a * b) d pos big) ∙ exact_ceil_pos (a * b) d pos)
                ])
        ])
]
