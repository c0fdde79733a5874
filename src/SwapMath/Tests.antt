-- ===== src/SwapMath/Tests.antt =====
-- The swap step on the vectors of core/math/swap.rs, and on the boundaries.
use rm_uniswap.Prelude.{ℕ, ◌*◌, ◌^◌, ◌<◌, ◌≡◌, ◌⊎◌, refl, arith}
use rm_uniswap.Prelude.Int.{pos, negsuc, pos_part}
use rm_uniswap.Error.{ok, err, max_fee_exact_out}
use rm_uniswap.Fee.{Fee}
use rm_uniswap.Fee.Protocol.{IsFee}
use rm_uniswap.SqrtPrice.{IsPrice}
use rm_uniswap.SqrtPriceMath.Next.{IsLiquidity}
use rm_uniswap.SwapMath.{SwapStep, compute_swap_step}
use rm_uniswap.SwapMath.Spec.{Funded, ExactInBooks, ExactOutBooks}
use rm_uniswap.SwapMath.Step.{
  compute_swap_step-ExactInBooks, compute_swap_step-ExactOutBooks, compute_swap_step_total,
}

abbrev price_1_1 : ℕ
price_1_1 = 79228162514264337593543950336

abbrev price_101_100 : ℕ
price_101_100 = 79623317895830914510639640423

abbrev two_ether : ℕ
two_ether = 2 * 10 ^ 18

abbrev fee_600 : Fee
fee_600 = record { pips = 600; complement = 999400 }

price_1_1-IsPrice : IsPrice price_1_1
price_1_1-IsPrice = record { min_le = omega arith; le_max = omega arith }

price_101_100-IsPrice : IsPrice price_101_100
price_101_100-IsPrice = record { min_le = omega arith; le_max = omega arith }

two_ether-IsLiquidity : IsLiquidity two_ether
two_ether-IsLiquidity = record { positive = omega arith; fits = omega arith }

fee_600-IsFee : IsFee fee_600
fee_600-IsFee = record { sum = refl }

compute_swap_step-ExactInBooks_example :
    (s : SwapStep) × (compute_swap_step price_1_1 price_101_100 two_ether
        (negsuc 999999999999999999)
        fee_600
      ≡ ok s)
    × Funded price_1_1 price_101_100 two_ether s
    × ExactInBooks price_101_100 1000000000000000000 fee_600 s
compute_swap_step-ExactInBooks_example =
    compute_swap_step-ExactInBooks price_1_1 price_101_100 two_ether 999999999999999999 fee_600
      price_1_1-IsPrice price_101_100-IsPrice two_ether-IsLiquidity fee_600-IsFee (omega arith)

compute_swap_step-ExactOutBooks_example :
    (s : SwapStep) × (compute_swap_step price_101_100 price_1_1 two_ether (pos 1000) fee_600 ≡ ok s)
    × Funded price_101_100 price_1_1 two_ether s
    × ExactOutBooks price_1_1 1000 fee_600 s
compute_swap_step-ExactOutBooks_example =
    compute_swap_step-ExactOutBooks price_101_100 price_1_1 two_ether 1000 fee_600
      price_101_100-IsPrice price_1_1-IsPrice two_ether-IsLiquidity fee_600-IsFee (omega arith)
      (omega arith) (omega arith)

compute_swap_step_total_example :
    ((s : SwapStep) × (compute_swap_step price_1_1 price_101_100 two_ether (pos 5) fee_600 ≡ ok s)
      × ((fee_600.pips < 1_000_000) ⊎ (pos_part (pos 5) ≡ 0)))
    ⊎ (compute_swap_step price_1_1 price_101_100 two_ether (pos 5) fee_600 ≡ err max_fee_exact_out)
      × (fee_600.pips ≡ 1_000_000)
      × (0 < pos_part (pos 5))
compute_swap_step_total_example =
    compute_swap_step_total price_1_1 price_101_100 two_ether (pos 5) fee_600 price_1_1-IsPrice
      price_101_100-IsPrice two_ether-IsLiquidity fee_600-IsFee (omega arith)
