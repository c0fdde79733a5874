-- ===== src/SmallRatio/Tests.antt =====
-- The small-ratio routines on amounts of one, two and four limbs.
use rm_uniswap.Prelude.{◌+◌, ◌-◌, ◌*◌, ◌^◌, ◌≡◌, arith}
use rm_uniswap.SmallRatio.{mul_div_u32_floor, mul_div_u32_ceil}
use rm_uniswap.SmallRatio.Exact.{mul_div_u32_floor_lem, mul_div_u32_ceil_lem}
use rm_uniswap.Ratio.{exact_floor, exact_ceil}

mul_div_u32_floor_example :
    mul_div_u32_floor (2 ^ 256 - 1) 997000 1000000 ≡ exact_floor ((2 ^ 256 - 1) * 997000) 1000000
mul_div_u32_floor_example =
    mul_div_u32_floor_lem (2 ^ 256 - 1) 997000 1000000 (omega arith) (omega arith) (omega arith)

mul_div_u32_ceil_example :
    mul_div_u32_ceil (2 ^ 100 + 1) 3000 997000 ≡ exact_ceil ((2 ^ 100 + 1) * 3000) 997000
mul_div_u32_ceil_example =
    mul_div_u32_ceil_lem (2 ^ 100 + 1) 3000 997000 (omega arith) (omega arith) (omega arith)
