-- ===== src/SqrtPriceMath/Tests.antt =====
-- The next price and the amounts around the price 1.
use rm_uniswap.Prelude.{ℕ, ◌+◌, ◌-◌, ◌*◌, ◌/◌, ◌^◌, ◌≤◌, ◌≡◌, arith, true, false, div_ceil}
use rm_uniswap.Error.{ok}
use rm_uniswap.SqrtPrice.{IsPrice}
use rm_uniswap.SqrtPriceMath.{
  get_next_sqrt_price_from_amount0_add_rounding_up,
  get_next_sqrt_price_from_amount0_sub_rounding_up,
  get_next_sqrt_price_from_amount1_add_rounding_down,
  get_next_sqrt_price_from_amount1_sub_rounding_down, get_next_sqrt_price_from_input,
  get_next_sqrt_price_from_output, get_amount0_delta, get_amount1_delta,
}
use rm_uniswap.SqrtPriceMath.Amounts.{
  rounded, distance, ok_pair, get_amount0_delta_lem, get_amount1_delta_lem,
}
use rm_uniswap.SqrtPriceMath.Direction.{token0_span, token0_in_lem, token1_in_lem, token0_out_lem}
use rm_uniswap.SqrtPriceMath.Next.{IsLiquidity, IsAmount}
use rm_uniswap.SqrtPriceMath.Yields.{
  Yields, price_after_token0_in, amount0_add-Yields, amount0_sub-Yields, amount1_add-Yields,
  amount1_sub-Yields,
}

abbrev low : ℕ
low = 79228162514264337593543950336

abbrev high : ℕ
high = 79623317895830914510639640423

abbrev liquidity : ℕ
liquidity = 2 * 10 ^ 18

abbrev amount : ℕ
amount = 1000

low-IsPrice : IsPrice low
low-IsPrice = record { min_le = omega arith; le_max = omega arith }

high-IsPrice : IsPrice high
high-IsPrice = record { min_le = omega arith; le_max = omega arith }

liquidity-IsLiquidity : IsLiquidity liquidity
liquidity-IsLiquidity = record { positive = omega arith; fits = omega arith }

amount-IsAmount : IsAmount amount
amount-IsAmount = record { positive = omega arith; fits = omega arith }

amount0_add-Yields_example :
    Yields
      (get_next_sqrt_price_from_amount0_add_rounding_up low liquidity amount)
      (price_after_token0_in low liquidity amount)
amount0_add-Yields_example =
    amount0_add-Yields low liquidity amount low-IsPrice liquidity-IsLiquidity amount-IsAmount

amount0_sub-Yields_example :
    Yields
      (get_next_sqrt_price_from_amount0_sub_rounding_up low liquidity amount)
      (div_ceil (liquidity * low * 2 ^ 96) (liquidity * 2 ^ 96 - amount * low))
amount0_sub-Yields_example =
    amount0_sub-Yields low liquidity amount low-IsPrice liquidity-IsLiquidity amount-IsAmount
      (omega arith)

amount1_add-Yields_example :
    Yields
      (get_next_sqrt_price_from_amount1_add_rounding_down low liquidity amount)
      (low + amount * 2 ^ 96 / liquidity)
amount1_add-Yields_example =
    amount1_add-Yields low liquidity amount low-IsPrice liquidity-IsLiquidity amount-IsAmount

amount1_sub-Yields_example :
    Yields
      (get_next_sqrt_price_from_amount1_sub_rounding_down low liquidity amount)
      (low - div_ceil (amount * 2 ^ 96) liquidity)
amount1_sub-Yields_example =
    amount1_sub-Yields low liquidity amount low-IsPrice liquidity-IsLiquidity amount-IsAmount

token0_in_example :
    (q : ℕ) × (get_next_sqrt_price_from_input high liquidity amount true ≡ ok q)
    × (low ≤ q)
    × (q ≤ high)
    × (token0_span liquidity q high ≤ amount * (q * high))
token0_in_example =
    token0_in_lem high low liquidity amount high-IsPrice low-IsPrice liquidity-IsLiquidity
      amount-IsAmount (omega arith) (omega arith)

token1_in_example :
    (q : ℕ) × (get_next_sqrt_price_from_input low liquidity amount false ≡ ok q)
    × (low ≤ q)
    × (q ≤ high)
    × (liquidity * (q - low) ≤ amount * 2 ^ 96)
token1_in_example =
    token1_in_lem low high liquidity amount low-IsPrice high-IsPrice liquidity-IsLiquidity
      amount-IsAmount (omega arith) (omega arith)

token0_out_example :
    (q : ℕ) × (get_next_sqrt_price_from_output low liquidity amount false ≡ ok q)
    × (low ≤ q)
    × (q ≤ high)
    × (amount * (low * q) ≤ token0_span liquidity low q)
token0_out_example =
    token0_out_lem low high liquidity amount low-IsPrice high-IsPrice liquidity-IsLiquidity
      amount-IsAmount (omega arith) (omega arith)

get_amount0_delta_example :
    get_amount0_delta high low liquidity true
    ≡ ok_pair
        (rounded true (liquidity * distance high low * 2 ^ 96) (high * low))
        (liquidity * distance high low)
get_amount0_delta_example =
    get_amount0_delta_lem high low liquidity true high-IsPrice low-IsPrice (omega arith)

get_amount1_delta_example :
    get_amount1_delta high low liquidity true
    ≡ ok_pair
        (rounded true (liquidity * distance high low) (2 ^ 96))
        (liquidity * distance high low)
get_amount1_delta_example =
    get_amount1_delta_lem high low liquidity true high-IsPrice low-IsPrice (omega arith)
