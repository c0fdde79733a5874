-- ===== src/SwapMath.antt =====
-- core/math/swap.rs: one swap step within a range of constant liquidity. A `Cow` price is the price;
-- `amount` is the `I256`, negative for an exact input, positive for an exact output.
pub mod Fees
pub mod Spec
pub mod Net
pub mod ExactInCases
pub mod ExactIn
pub mod ExactOut
pub mod Step
mod Tests
use rm_uniswap.Prelude.{
  ℕ, ◌-◌, ◌*◌, ◌≤◌, ◌<◌, ◌^◌, Bool, true, false, not, ltb, leb, ◌==◌, if◌then◌else◌, ◌&&◌, ◌||◌,
  Option, none, some, min, max,
}
use rm_uniswap.Prelude.Int.{ℤ, pos, negsuc, abs, ltb_ℤ}
use rm_uniswap.Error.{Result, ok, err, ◌>>=◌, max_fee_exact_out}
use rm_uniswap.Fee.{Fee, is_zero, is_max, max_fee}
use rm_uniswap.SmallRatio.{mul_div_u32_floor, mul_div_u32_ceil}
use rm_uniswap.SqrtPrice.{new_non_zero}
use rm_uniswap.SqrtPriceMath.{
  get_amount0_delta, get_amount0_delta_with_liquidity_delta, get_amount1_delta,
  get_amount1_delta_with_liquidity_delta, get_next_sqrt_price_from_input,
  get_next_sqrt_price_from_output,
}

pub record SwapStep : Type 0 where
  pub sqrt_ratio_next_x96 : ℕ
  pub amount_in : ℕ
  pub amount_out : ℕ
  pub fee_amount : ℕ

pub amount_less_fee_exact_in : ℕ → Fee → Result ℕ
amount_less_fee_exact_in amount_remaining fee =
    if is_zero fee
    then ok amount_remaining
    else if is_max fee
    then ok 0
    else mul_div_u32_floor amount_remaining fee.complement max_fee

pub fee_on_exact_input : ℕ → Fee → Result ℕ
fee_on_exact_input amount_in fee =
    if (amount_in == 0) || is_zero fee
    then ok 0
    else if is_max fee
    then ok amount_in
    else mul_div_u32_ceil amount_in fee.pips fee.complement

-- The next tick's price, clamped by the caller's limit.
abbrev pub get_sqrt_price_target : Bool → ℕ → ℕ → ℕ
get_sqrt_price_target zero_for_one sqrt_price_next sqrt_price_limit =
    if zero_for_one
    then max sqrt_price_next sqrt_price_limit
    else min sqrt_price_next sqrt_price_limit

-- The branch of `compute_exact_in` for an input that the fee absorbs.
abbrev absorbed_by_fee : ℕ → ℕ → ℕ → SwapStep
absorbed_by_fee current target amount_remaining = record {
  sqrt_ratio_next_x96 = current;
  amount_in = 0;
  amount_out = 0;
  fee_amount = if current == target then 0 else amount_remaining;
}

-- The input that takes the price all the way, and the product reused for the output.
pub max_input : ℕ → ℕ → ℕ → Bool → Result (ℕ × ℕ)
max_input current target liquidity zero_for_one =
    if zero_for_one
    then get_amount0_delta target current liquidity true
    else get_amount1_delta current target liquidity true

pub max_output : ℕ → ℕ → ℕ → Bool → Result (ℕ × ℕ)
max_output current target liquidity zero_for_one =
    if zero_for_one
    then get_amount1_delta target current liquidity false
    else get_amount0_delta current target liquidity false

-- `reached_target` in `compute_exact_in`: the step ends on the target.
pub exact_in_reached : ℕ → ℕ → Fee → Bool → ℕ → ℕ → Result SwapStep
exact_in_reached current target fee zero_for_one max_amount_in liquidity_delta_sqrt = do
  amount_out ←
      (if zero_for_one
        then ok (get_amount1_delta_with_liquidity_delta liquidity_delta_sqrt false)
        else get_amount0_delta_with_liquidity_delta current target liquidity_delta_sqrt false)
  fee_amount ← fee_on_exact_input max_amount_in fee
  ok (record {
    sqrt_ratio_next_x96 = target;
    amount_in = max_amount_in;
    amount_out = amount_out;
    fee_amount = fee_amount;
  })

-- The partial fill: the whole net input is swapped, and the rest is the fee.
pub exact_in_partial : ℕ → ℕ → ℕ → Bool → ℕ → Result SwapStep
exact_in_partial current liquidity amount_remaining zero_for_one amount_remaining_less_fee = do
  next ← get_next_sqrt_price_from_input current liquidity amount_remaining_less_fee zero_for_one
  (amount_out, _) ←
      (if zero_for_one
        then get_amount1_delta next current liquidity false
        else get_amount0_delta current next liquidity false)
  ok (record {
    sqrt_ratio_next_x96 = next;
    amount_in = amount_remaining_less_fee;
    amount_out = amount_out;
    fee_amount = amount_remaining - amount_remaining_less_fee;
  })

-- `let Some(amount_remaining_less_fee) = NonZeroU256::new(..) else { .. }`.
pub exact_in_net : ℕ → ℕ → ℕ → ℕ → Fee → Bool → Option ℕ → Result SwapStep
exact_in_net current target liquidity amount_remaining fee zero_for_one none =
    ok (absorbed_by_fee current target amount_remaining)
exact_in_net current target liquidity amount_remaining fee zero_for_one (some less_fee) = do
  (max_amount_in, liquidity_delta_sqrt) ← max_input current target liquidity zero_for_one
  if leb max_amount_in less_fee
      then exact_in_reached current target fee zero_for_one max_amount_in liquidity_delta_sqrt
      else exact_in_partial current liquidity amount_remaining zero_for_one less_fee

pub compute_exact_in : ℕ → ℕ → ℕ → ℕ → Fee → Bool → Result SwapStep
unfolding exact_in_net
compute_exact_in current target liquidity amount_remaining fee zero_for_one = do
  less_fee ← amount_less_fee_exact_in amount_remaining fee
  exact_in_net current target liquidity amount_remaining fee zero_for_one (new_non_zero less_fee)

pub exact_out_reached : ℕ → ℕ → Fee → Bool → ℕ → ℕ → Result SwapStep
exact_out_reached current target fee zero_for_one max_amount_out liquidity_delta_sqrt = do
  amount_in ←
      (if zero_for_one
        then get_amount0_delta_with_liquidity_delta target current liquidity_delta_sqrt true
        else ok (get_amount1_delta_with_liquidity_delta liquidity_delta_sqrt true))
  fee_amount ← fee_on_exact_input amount_in fee
  ok (record {
    sqrt_ratio_next_x96 = target;
    amount_in = amount_in;
    amount_out = max_amount_out;
    fee_amount = fee_amount;
  })

pub exact_out_partial : ℕ → ℕ → ℕ → Fee → Bool → Result SwapStep
exact_out_partial current liquidity amount_remaining fee zero_for_one = do
  next ← get_next_sqrt_price_from_output current liquidity amount_remaining zero_for_one
  (amount_in, _) ←
      (if zero_for_one
        then get_amount0_delta next current liquidity true
        else get_amount1_delta current next liquidity true)
  fee_amount ← fee_on_exact_input amount_in fee
  ok (record {
    sqrt_ratio_next_x96 = next;
    amount_in = amount_in;
    amount_out = amount_remaining;
    fee_amount = fee_amount;
  })

pub compute_exact_out : ℕ → ℕ → ℕ → ℕ → Fee → Bool → Result SwapStep
compute_exact_out current target liquidity amount_remaining fee zero_for_one = do
  (max_amount_out, liquidity_delta_sqrt) ← max_output current target liquidity zero_for_one
  if leb max_amount_out amount_remaining
      then exact_out_reached current target fee zero_for_one max_amount_out liquidity_delta_sqrt
      else exact_out_partial current liquidity amount_remaining fee zero_for_one

pub compute_swap_step : ℕ → ℕ → ℕ → ℤ → Fee → Result SwapStep
compute_swap_step current target liquidity amount fee =
    let exact_in = ltb_ℤ amount (pos 0) in
    let zero_for_one = leb target current in
    if abs amount == 0
    then ok
        (record { sqrt_ratio_next_x96 = current; amount_in = 0; amount_out = 0; fee_amount = 0 })
    else if not exact_in && is_max fee
    then err max_fee_exact_out
    else if exact_in
    then compute_exact_in current target liquidity (abs amount) fee zero_for_one
    else compute_exact_out current target liquidity (abs amount) fee zero_for_one
