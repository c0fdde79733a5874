-- ===== src/BalanceDelta/Tests.antt =====
-- A position of liquidity 5 below the current tick, and the ends of the `i128` range.
use rm_uniswap.Prelude.{
  ℕ, ◌*◌, ◌^◌, ◌≡◌, refl, arith, true, false, div_ceil, le_mul_div_ceil, div_ceil_mul_lt,
}
use rm_uniswap.Prelude.Int.{◌-ℤ◌, pos, negsuc}
use rm_uniswap.Error.{ok}
use rm_uniswap.SqrtPrice.{IsPrice}
use rm_uniswap.SqrtPriceMath.Amounts.{rounded, distance, get_amount1_delta_lem}
use rm_uniswap.BalanceDelta.{
  BalanceDelta, checked_sub, from_liquidity_principal, amount0_delta_for_liquidity_change,
  amount1_delta_for_liquidity_change, liquidity_amount_to_i128,
}
use rm_uniswap.BalanceDelta.Narrow.{u256_to_i128_positive_lem, u256_to_i128_negative_lem}
use rm_uniswap.BalanceDelta.Change.{signed_amount, liquidity_change_lem}
use rm_uniswap.BalanceDelta.Principal.{Covers, from_liquidity_principal-Covers}

abbrev one : ℕ
one = 79228162514264337593543950336

abbrev four : ℕ
four = 158456325028528675187087900672

one-IsPrice : IsPrice one
one-IsPrice = record { min_le = omega arith; le_max = omega arith }

four-IsPrice : IsPrice four
four-IsPrice = record { min_le = omega arith; le_max = omega arith }

abbrev paid : BalanceDelta
paid = record { amount0 = pos 0; amount1 = negsuc 4 }

abbrev received : BalanceDelta
received = record { amount0 = pos 0; amount1 = pos 5 }

exact : div_ceil (5 * one) (2 ^ 96) ≡ 5
exact = omega (
  arith,
  le_mul_div_ceil (5 * one) (2 ^ 96) (omega arith),
  div_ceil_mul_lt (5 * one) (2 ^ 96) (omega arith),
)

deposit_of_five :
    from_liquidity_principal (pos 20000) (pos 0) (pos 13863) four one four (pos 5) ≡ ok paid
unfolding from_liquidity_principal amount1_delta_for_liquidity_change liquidity_amount_to_i128
deposit_of_five =
    rw
      (
        get_amount1_delta_lem one four 5 true one-IsPrice four-IsPrice (omega arith),
        exact,
        u256_to_i128_negative_lem 5 (omega arith),
      )
      refl

withdrawal_of_five :
    from_liquidity_principal (pos 20000) (pos 0) (pos 13863) four one four (negsuc 4) ≡ ok received
unfolding from_liquidity_principal amount1_delta_for_liquidity_change liquidity_amount_to_i128
withdrawal_of_five =
    rw
      (
        get_amount1_delta_lem one four 5 false one-IsPrice four-IsPrice (omega arith),
        u256_to_i128_positive_lem 5 (omega arith),
      )
      refl

from_liquidity_principal-Covers_example : Covers (pos 0) (pos 0) × Covers (negsuc 4) (pos 5)
from_liquidity_principal-Covers_example =
    from_liquidity_principal-Covers (pos 20000) (pos 0) (pos 13863) four one four 4 paid received
      four-IsPrice one-IsPrice four-IsPrice (omega arith) deposit_of_five withdrawal_of_five

liquidity_change_example :
    (amount0_delta_for_liquidity_change one four 5 true
      ≡ signed_amount true (rounded true (5 * distance one four * 2 ^ 96) (one * four)))
    × (amount1_delta_for_liquidity_change one four 5 true
        ≡ signed_amount true (rounded true (5 * distance one four) (2 ^ 96)))
liquidity_change_example =
    liquidity_change_lem one four 5 one-IsPrice four-IsPrice (omega arith) true

-- A hook takes 2 units of token1 out of the payment.
abbrev hook_part : BalanceDelta
hook_part = record { amount0 = pos 7; amount1 = negsuc 1 }

abbrev remainder : BalanceDelta
remainder = record { amount0 = negsuc 6; amount1 = negsuc 2 }

remainder_lem : checked_sub paid hook_part ≡ ok remainder
unfolding checked_sub ◌-ℤ◌
remainder_lem = refl
