-- ===== src/TickMath/Tests.antt =====
-- Ticks at the ends and inside of the range, and the products of full words.
use rm_uniswap.Prelude.{ℕ, ◌+◌, ◌-◌, ◌^◌, ◌≡◌, arith}
use rm_uniswap.Prelude.Int.{negsuc}
use rm_uniswap.SqrtPrice.{IsPrice}
use rm_uniswap.TickMath.{get_sqrt_price_at_tick, ratio_of, refine_log2}
use rm_uniswap.TickMath.Inverse.{square_and_halve, refine_log2-square_and_halve}
use rm_uniswap.TickMath.Ladder.{ladder, ratio_of-ladder}
use rm_uniswap.TickMath.Range.{get_sqrt_price_at_tick-IsPrice}

abbrev max_u128 : ℕ
max_u128 = 2 ^ 128 - 1

get_sqrt_price_at_tick-IsPrice_example : IsPrice (get_sqrt_price_at_tick (negsuc 887271))
get_sqrt_price_at_tick-IsPrice_example =
    get_sqrt_price_at_tick-IsPrice (negsuc 887271) (omega arith)

ratio_of-ladder_example : ratio_of 887272 ≡ ladder 20 0 887272 (2 ^ 128)
ratio_of-ladder_example = ratio_of-ladder 887272 (omega arith) (omega arith)

refine_log2-square_and_halve_example :
    refine_log2 14 (2 ^ 127 + 12345) (negsuc 9) ≡ square_and_halve 14 (2 ^ 127 + 12345) (negsuc 9)
refine_log2-square_and_halve_example =
    refine_log2-square_and_halve 14 (2 ^ 127 + 12345) (negsuc 9) (omega arith) (omega arith)
