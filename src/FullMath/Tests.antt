-- ===== src/FullMath/Tests.antt =====
-- The division routines at their boundaries.
use rm_uniswap.Prelude.{ℕ, ◌-◌, ◌*◌, ◌^◌, ◌≡◌, arith}
use rm_uniswap.FullMath.{mul_div, mul_div_rounding_up, mul_q96_div, mul_q96_div_rounding_up}
use rm_uniswap.FullMath.Exact.{mul_div_lem, mul_div_rounding_up_lem}
use rm_uniswap.FullMath.Q96.{mul_q96_div_lem}
use rm_uniswap.FullMath.Q96Ceil.{mul_q96_div_rounding_up_lem}
use rm_uniswap.Ratio.{exact_floor, exact_ceil}

abbrev max_u256 : ℕ
max_u256 = 2 ^ 256 - 1

-- A product of 512 bits over an even denominator that is no power of two.
mul_div_example :
    mul_div max_u256 (max_u256 - 1) (max_u256 - 3)
    ≡ exact_floor (max_u256 * (max_u256 - 1)) (max_u256 - 3)
mul_div_example = mul_div_lem max_u256 (max_u256 - 1) (max_u256 - 3) (omega arith)

mul_div_rounding_up_example : mul_div_rounding_up max_u256 7 12 ≡ exact_ceil (max_u256 * 7) 12
mul_div_rounding_up_example = mul_div_rounding_up_lem max_u256 7 12 (omega arith)

mul_q96_div_example :
    mul_q96_div (2 ^ 200) (2 ^ 190 - 1) ≡ exact_floor (2 ^ 200 * 2 ^ 96) (2 ^ 190 - 1)
mul_q96_div_example = mul_q96_div_lem (2 ^ 200) (2 ^ 190 - 1) (omega arith) (omega arith)

mul_q96_div_rounding_up_example :
    mul_q96_div_rounding_up (2 ^ 200) (2 ^ 190 - 1) ≡ exact_ceil (2 ^ 200 * 2 ^ 96) (2 ^ 190 - 1)
mul_q96_div_rounding_up_example =
    mul_q96_div_rounding_up_lem (2 ^ 200) (2 ^ 190 - 1) (omega arith) (omega arith)
