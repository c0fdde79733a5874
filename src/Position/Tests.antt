-- ===== src/Position/Tests.antt =====
-- A position of 2^100 units over a range whose fee growth has wrapped around.
use rm_uniswap.Prelude.{◌^◌, ◌-◌, ◌≡◌, refl, arith}
use rm_uniswap.Prelude.Int.{negsuc}
use rm_uniswap.Error.{ok}
use rm_uniswap.Position.{PositionState, update, new_liquidity}
use rm_uniswap.Position.Fees.{update_lem}

abbrev held : PositionState
held = record {
  liquidity = 2 ^ 100;
  fee_growth_inside0_last_x128 = 2 ^ 256 - 2 ^ 30;
  fee_growth_inside1_last_x128 = 7;
}

withdrawn : new_liquidity held (negsuc 9) ≡ ok (2 ^ 100 - 10)
unfolding new_liquidity
withdrawn = refl

update_lem_example : update held (negsuc 9) (2 ^ 30) 7 ≡ (
  record {
    liquidity = 2 ^ 100 - 10;
    fee_growth_inside0_last_x128 = 2 ^ 30;
    fee_growth_inside1_last_x128 = 7;
  },
  ok (8, 0),
)
update_lem_example = update_lem held (negsuc 9) (2 ^ 30) 7 (2 ^ 100 - 10) (omega arith) withdrawn
