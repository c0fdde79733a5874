-- ===== src/Params.antt =====
-- core/types/params.rs: what a swap and a change of liquidity are given and return. An address and a
-- salt are numbers; `I256` and `i128` are integers.
use rm_uniswap.Prelude.{ℕ, Bool, Option, none}
use rm_uniswap.Prelude.Int.{ℤ}
use rm_uniswap.BalanceDelta.{BalanceDelta}
use rm_uniswap.Fee.{Fee}
use rm_uniswap.SqrtPrice.{extreme_price_limit}

-- `amount_specified` is negative for an exact input and positive for an exact output.
pub record SwapParamsInner : Type 0 where
  pub zero_for_one : Bool
  pub amount_specified : ℤ
  pub sqrt_price_limit : ℕ
  pub lp_fee_override : Option Fee

-- `SwapParamsInner::new`.
abbrev pub new_swap_params : Bool → ℤ → SwapParamsInner
new_swap_params zero_for_one amount = record {
  zero_for_one = zero_for_one;
  amount_specified = amount;
  sqrt_price_limit = extreme_price_limit zero_for_one;
  lp_fee_override = none;
}

pub record ModifyLiquidityParams : Type 0 where
  pub tick_lower : ℤ
  pub tick_upper : ℤ
  pub liquidity_delta : ℤ
  pub owner : ℕ
  pub salt : ℕ

pub record ModifyLiquidityResult : Type 0 where
  pub delta : BalanceDelta
  pub fee_delta : BalanceDelta

pub record SwapResult : Type 0 where
  pub swap_delta : BalanceDelta
  pub amount_to_protocol : ℕ
  pub swap_fee : Fee
  pub sqrt_price_x96 : ℕ
  pub tick : ℤ
  pub liquidity : ℕ
