-- ===== src/Fee/Tests.antt =====
-- Fees of a pool with an LP fee of 0.3% and protocol fees of 0.1% and 0.05%.
use rm_uniswap.Prelude.{◌≡◌, refl, arith, true, none}
use rm_uniswap.Error.{ok}
use rm_uniswap.Fee.{Fee, ProtocolFee, SwapFee, calculate_swap_fee, fee_zero}
use rm_uniswap.Fee.Protocol.{IsCombined, calculate_swap_fee-IsCombined}

abbrev lp_3000 : Fee
lp_3000 = record { pips = 3000; complement = 997000 }

abbrev protocol : ProtocolFee
protocol = record { zero_for_one_fee = 1000; one_for_zero_fee = 500 }

abbrev dynamic : SwapFee
dynamic = record {
  lp_fee = none;
  protocol_fee = protocol;
  zero_for_one_swap_fee = fee_zero;
  one_for_zero_swap_fee = fee_zero;
}

calculate_swap_fee-IsCombined_example :
    (f : Fee) × (calculate_swap_fee protocol true lp_3000 ≡ ok f) × IsCombined 1000 3000 f
calculate_swap_fee-IsCombined_example =
    calculate_swap_fee-IsCombined protocol true lp_3000 (omega arith) (record { sum = refl })
