-- ===== src/SwapLoop.antt =====
-- core/concentrated/pool.rs, `swap_inner`: the loop that `Pool::swap` and `Pool::quote_swap` share,
-- over the traits `TickAccess` and `StateAccess`. A store that was changed before an error stays
-- changed, so the result carries it on both paths.
pub mod Charge
pub mod Ends
pub mod Quote
pub mod Run
pub mod Settlement
pub mod Step
pub mod Tests
pub mod Ticks
use rm_uniswap.Prelude.{
  ℕ, zero, suc, ◌+◌, ◌-◌, ◌*◌, ◌/◌, ◌^◌, Bool, true, false, not, ltb, leb, ◌==◌, if◌then◌else◌,
  ◌&&◌, ◌||◌, Option, none, some,
}
use rm_uniswap.Prelude.Int.{ℤ, pos, negsuc, neg, abs, pos_part, neg_part, ltb_ℤ, leb_ℤ, ◌+ℤ◌, ◌-ℤ◌}
use rm_uniswap.BalanceDelta.{BalanceDelta, fit_i128, wrapping_neg_i128}
use rm_uniswap.Error.{
  Error, Result, ok, err, ◌>>=◌, ok_or, signed_overflow, amount_overflow, i128_overflow,
  fee_too_large, liquidity_underflow, price_limit_already_exceeded, invalid_pool_sqrt_price,
}
use rm_uniswap.Fee.{Fee, SwapFee, swap_fee, get_fee, pips_denominator}
use rm_uniswap.FullMath.{mul_div}
use rm_uniswap.Params.{SwapParamsInner, SwapResult}
use rm_uniswap.PoolState.{PoolState, StateAccess}
use rm_uniswap.SqrtPrice.{is_valid}
use rm_uniswap.SwapMath.{SwapStep, compute_swap_step, get_sqrt_price_target}
use rm_uniswap.TickInfo.{TickInfo}
use rm_uniswap.TickKey.{div_euclid, shift_right, times}
use rm_uniswap.TickMath.{max_tick, get_sqrt_price_at_tick, get_tick_at_sqrt_price}
use rm_uniswap.TickStore.{TickAccess}
use rm_uniswap.Word.{checked_add, checked_sub, checked_mul}

-- `I256::try_from` of a `U256`, and the checked sums of an `I256`.
abbrev pub to_i256 : ℕ → Result ℤ
to_i256 n = if ltb n (2 ^ 255) then ok (pos n) else err signed_overflow

abbrev pub fit_i256 : ℤ → Option ℤ
fit_i256 z = if leb_ℤ (negsuc (2 ^ 255 - 1)) z && ltb_ℤ z (pos (2 ^ 255)) then some z else none

-- `u128::checked_add_signed`.
abbrev pub checked_add_signed : ℕ → ℤ → Option ℕ
checked_add_signed l z =
    if leb (neg_part z) (l + pos_part z) && ltb (l + pos_part z - neg_part z) (2 ^ 128)
    then some (l + pos_part z - neg_part z)
    else none

-- `clamp(TickIndex::MIN, TickIndex::MAX)`.
abbrev pub clamp_tick : ℤ → ℤ
clamp_tick z =
    if ltb_ℤ z (neg (pos max_tick))
    then neg (pos max_tick)
    else if ltb_ℤ (pos max_tick) z
    then pos max_tick
    else z

-- The end of the 256-tick word of the bitmap, in the direction of the swap.
pub word_boundary : ℤ → ℕ → Bool → ℤ
word_boundary tick spacing zero_for_one =
    let compressed = div_euclid tick spacing in
    clamp_tick (
      if zero_for_one
      then times (times (shift_right compressed 8) 256) spacing
      else times (times (shift_right (compressed +ℤ pos 1) 8) 256 +ℤ pos 255) spacing)

-- Where a step may end: `key` is that of the store where the tick is initialized.
pub record Boundary : Type 0 where
  pub tick_index : ℤ
  pub sqrt_price_x96 : ℕ
  pub key : Option ℕ

abbrev pub word_end : ℤ → Boundary
word_end tick = record {
  tick_index = tick;
  sqrt_price_x96 = get_sqrt_price_at_tick tick;
  key = none;
}

-- The next initialized tick, if it is within the word.
abbrev pub within_word : Bool → ℤ → Option (ℕ × TickInfo) → Boundary
within_word zero_for_one boundary none = word_end boundary
within_word zero_for_one boundary (some next) =
    if (if zero_for_one then leb_ℤ boundary next.1.tick_index else leb_ℤ next.1.tick_index boundary)
    then record {
      tick_index = next.1.tick_index;
      sqrt_price_x96 = next.1.sqrt_price_x96;
      key = some (next.0);
    }
    else word_end boundary

-- What a turn changes: the variables of the loop, with the fields of `result` that move and the fee
-- growth of `step`. The other fields of `step` are written in every turn before they are read.
pub record Progress : Type 0 where
  pub sqrt_price_x96 : ℕ
  pub tick : ℤ
  pub liquidity : ℕ
  pub amount_to_protocol : ℕ
  pub amount_specified_remaining : ℤ
  pub amount_calculated : ℤ
  pub fee_growth_global_x128 : ℕ

-- The amounts of a step, booked on the remaining and on the calculated amount.
pub book_amounts : Bool → SwapStep → ℤ → ℤ → Result (ℤ × ℤ)
book_amounts exact_out s remaining calculated =
    let paid = ok_or (checked_add 256 s.amount_in s.fee_amount) amount_overflow >>= to_i256 in
    if exact_out
    then (to_i256 s.amount_out >>= λ out.
        ok_or (fit_i256 (remaining -ℤ out)) amount_overflow >>= λ remaining'. paid >>= λ total.
        ok_or (fit_i256 (calculated -ℤ total)) amount_overflow >>= λ calculated'.
        ok (remaining', calculated'))
    else (paid >>= λ total. ok_or (fit_i256 (remaining +ℤ total)) amount_overflow >>= λ remaining'.
        to_i256 s.amount_out >>= λ out.
        ok_or (fit_i256 (calculated +ℤ out)) amount_overflow >>= λ calculated'.
        ok (remaining', calculated'))

-- The protocol's part of the fee, and what it leaves to the liquidity: (left, collected).
pub take_protocol_fee : ℕ → Fee → SwapStep → ℕ → Result (ℕ × ℕ)
take_protocol_fee pips fee s collected =
    if pips == 0
    then ok (s.fee_amount, collected)
    else ((if fee.pips == pips
          then ok s.fee_amount
          else (ok_or (checked_add 256 s.amount_in s.fee_amount) amount_overflow >>= λ total.
              ok_or (checked_mul 256 total pips) amount_overflow >>= λ product.
              ok (product / pips_denominator)))
        >>= λ part. ok_or (checked_sub s.fee_amount part) amount_overflow >>= λ left.
            ok_or (checked_add 256 collected part) amount_overflow >>= λ collected'.
            ok (left, collected'))

abbrev pub bool_eq : Bool → Bool → Bool
bool_eq true b = b
bool_eq false b = not b

-- `map_err`.
abbrev pub or_error {ℓ} : {X : Type ℓ} → Result X → Error → Result X
or_error (ok x) e = ok x
or_error (err _) e = err e

pub grow_fees : ℕ → ℕ → ℕ → Result ℕ
grow_fees growth fee_amount liquidity =
    if ltb 0 liquidity
    then (or_error (mul_div fee_amount (2 ^ 128) liquidity) fee_too_large >>= λ part.
        ok_or (checked_add 256 growth part) fee_too_large)
    else ok growth

-- The parameters of a run: the store's trait, the pool's spacing and fees, the swap's parameters and
-- the state it starts from.
module _ (A : TickAccess) (spacing : ℕ) (fees : SwapFee) (params : SwapParamsInner)
    (start : PoolState) where
  open params use {zero_for_one, amount_specified, sqrt_price_limit}

  abbrev pub fee : Fee
  fee = swap_fee fees zero_for_one

  pub next_boundary : A.Ticks → ℤ → Boundary
  unfolding word_boundary
  next_boundary ticks tick =
      within_word zero_for_one (word_boundary tick spacing zero_for_one)
        (A.next_initialized_tick ticks (A.indexer ticks tick) zero_for_one)

  -- A step towards the boundary or the limit, with its amounts and fees booked. The tick and the
  -- liquidity are not touched.
  pub charge : Boundary → Progress → Result Progress
  unfolding book_amounts take_protocol_fee grow_fees
  charge b w =
      compute_swap_step w.sqrt_price_x96
        (get_sqrt_price_target zero_for_one b.sqrt_price_x96 sqrt_price_limit) w.liquidity
        w.amount_specified_remaining fee
      >>= λ s.
          book_amounts (ltb_ℤ (pos 0) amount_specified) s w.amount_specified_remaining
            w.amount_calculated
          >>= λ booked.
              take_protocol_fee (get_fee fees.protocol_fee zero_for_one) fee s w.amount_to_protocol
              >>= λ split. grow_fees w.fee_growth_global_x128 (split.0) w.liquidity >>= λ growth.
                  ok (record w {
                    sqrt_price_x96 = s.sqrt_ratio_next_x96;
                    amount_to_protocol = split.1;
                    amount_specified_remaining = booked.0;
                    amount_calculated = booked.1;
                    fee_growth_global_x128 = growth;
                  })

  -- The new tick: past the boundary where its price is reached, else that of a price that moved.
  abbrev pub tick_after : Boundary → ℕ → Progress → ℤ
  tick_after b start_price w =
      if w.sqrt_price_x96 == b.sqrt_price_x96
      then (if zero_for_one then b.tick_index -ℤ pos 1 else b.tick_index)
      else if not (w.sqrt_price_x96 == start_price)
      then get_tick_at_sqrt_price w.sqrt_price_x96
      else w.tick

  -- The net liquidity of the crossed tick, applied in the direction of the swap.
  abbrev pub crossed : Boundary → ℕ → Progress → ℤ → Result Progress
  crossed b start_price w net =
      ok_or (checked_add_signed w.liquidity (if zero_for_one then wrapping_neg_i128 net else net))
        liquidity_underflow
      >>= λ liquidity. ok (record w { liquidity = liquidity; tick = tick_after b start_price w })

  -- The fee growth of both tokens, with that of the input token as it is in the loop.
  abbrev pub growth0 : Progress → ℕ
  growth0 w = if zero_for_one then w.fee_growth_global_x128 else start.fee_growth_global0_x128

  abbrev pub growth1 : Progress → ℕ
  growth1 w = if zero_for_one then start.fee_growth_global1_x128 else w.fee_growth_global_x128

  abbrev pub with_crossing :
      A.Ticks → Boundary → ℕ → Progress → Result (A.Ticks × ℤ) → A.Ticks × Result Progress
  with_crossing ticks b start_price w (err e) = (ticks, err e)
  with_crossing ticks b start_price w (ok r) = (r.0, crossed b start_price w (r.1))

  abbrev pub at_key : A.Ticks → Boundary → ℕ → Progress → Option ℕ → A.Ticks × Result Progress
  at_key ticks b start_price w none = (ticks, ok (record w { tick = tick_after b start_price w }))
  at_key ticks b start_price w (some key) =
      if w.sqrt_price_x96 == b.sqrt_price_x96
      then with_crossing ticks b start_price w (A.cross_tick ticks key (growth0 w) (growth1 w))
      else (ticks, ok (record w { tick = tick_after b start_price w }))

  abbrev pub charged : A.Ticks → Boundary → ℕ → Result Progress → A.Ticks × Result Progress
  charged ticks b start_price (err e) = (ticks, err e)
  charged ticks b start_price (ok w) = at_key ticks b start_price w b.key

  -- One turn of the loop.
  pub turn : A.Ticks → Progress → A.Ticks × Result Progress
  unfolding charge next_boundary
  turn ticks w = let b = next_boundary ticks w.tick in charged ticks b w.sqrt_price_x96 (charge b w)

  -- The loop's test, and the `break` where no liquidity is left.
  abbrev pub finished : Progress → Bool
  finished w =
      (abs w.amount_specified_remaining == 0)
      || (w.sqrt_price_x96 == sqrt_price_limit)
      || (w.liquidity == 0)

  -- A turn that fails ends the loop; `rest` is the loop with the fuel left.
  abbrev pub go_on :
      (A.Ticks → Progress → A.Ticks × Option (Result Progress))
      → A.Ticks × Result Progress
      → A.Ticks × Option (Result Progress)
  go_on rest r = elim (r.1) [ err e ↦ (r.0, some (err e)) | ok w ↦ rest (r.0) w ]

  -- On fuel, which runs out with `none`.
  pub swap_loop : ℕ → A.Ticks → Progress → A.Ticks × Option (Result Progress)
  unfolding turn
  swap_loop zero ticks w = (ticks, none)
  swap_loop (suc fuel) ticks w = elim (finished w) [
    | true ↦ (ticks, some (ok w))
    | false ↦ go_on (swap_loop fuel) (turn ticks w)
  ]

  abbrev pub begin : Progress
  begin = record {
    sqrt_price_x96 = start.sqrt_price_x96;
    tick = start.tick;
    liquidity = start.liquidity;
    amount_to_protocol = 0;
    amount_specified_remaining = amount_specified;
    amount_calculated = pos 0;
    fee_growth_global_x128 =
        if zero_for_one then start.fee_growth_global0_x128 else start.fee_growth_global1_x128;
  }

  abbrev pub exact_in : Bool
  exact_in = ltb_ℤ amount_specified (pos 0)

  -- What the caller pays and receives, from the amounts of the loop.
  pub swap_delta : Progress → Result BalanceDelta
  swap_delta w =
      let consumed =
        ok_or (fit_i256 (amount_specified -ℤ w.amount_specified_remaining)) i128_overflow >>= λ z.
        ok_or (fit_i128 z) i128_overflow in
      let calculated = ok_or (fit_i128 w.amount_calculated) i128_overflow in
      if bool_eq zero_for_one exact_in
      then (consumed >>= λ a0. calculated >>= λ a1. ok (record { amount0 = a0; amount1 = a1 }))
      else (calculated >>= λ a0. consumed >>= λ a1. ok (record { amount0 = a0; amount1 = a1 }))

  abbrev pub result_of : Progress → BalanceDelta → SwapResult
  result_of w delta = record {
    swap_delta = delta;
    amount_to_protocol = w.amount_to_protocol;
    swap_fee = fee;
    sqrt_price_x96 = w.sqrt_price_x96;
    tick = w.tick;
    liquidity = w.liquidity;
  }

  -- The price limit is not strictly beyond the current price.
  abbrev pub limit_exceeded : Bool
  limit_exceeded =
      if zero_for_one
      then leb start.sqrt_price_x96 sqrt_price_limit
      else leb sqrt_price_limit start.sqrt_price_x96

-- What a run leaves: the state, the ticks, and the result, `none` where the fuel ran out.
pub record Outcome (A : TickAccess) (B : StateAccess) : Type 0 where
  pub state : B.State
  pub ticks : A.Ticks
  pub result : Option (Result SwapResult)

module _ (A : TickAccess) (B : StateAccess) (spacing : ℕ) (fees : SwapFee)
    (params : SwapParamsInner) where
  open params use {zero_for_one, amount_specified}

  -- After the loop: the deltas, and only then the state.
  abbrev pub committed : B.State → A.Ticks → Progress → Result BalanceDelta → Outcome A B
  committed state ticks w (err e) = record { state = state; ticks = ticks; result = some (err e) }
  committed state ticks w (ok delta) = record {
    state = B.set state w.tick w.sqrt_price_x96 w.liquidity zero_for_one w.fee_growth_global_x128;
    ticks = ticks;
    result = some (ok (result_of A spacing fees params (B.get state) w delta));
  }

  abbrev pub after_loop : B.State → A.Ticks → Option (Result Progress) → Outcome A B
  after_loop state ticks none = record { state = state; ticks = ticks; result = none }
  after_loop state ticks (some (err e)) = record {
    state = state;
    ticks = ticks;
    result = some (err e);
  }
  after_loop state ticks (some (ok w)) =
      committed state ticks w (swap_delta A spacing fees params (B.get state) w)

  pub swap_inner : ℕ → B.State → A.Ticks → Outcome A B
  unfolding swap_loop swap_delta
  swap_inner fuel state ticks =
      let start = B.get state in
      if abs amount_specified == 0
      then record {
        state = state;
        ticks = ticks;
        result = some (
            ok (
              result_of A spacing fees params start (begin A spacing fees params start)
                (record { amount0 = pos 0; amount1 = pos 0 })));
      }
      else if not (is_valid start.sqrt_price_x96)
      then record { state = state; ticks = ticks; result = some (err invalid_pool_sqrt_price) }
      else if limit_exceeded A spacing fees params start
      then record { state = state; ticks = ticks; result = some (err price_limit_already_exceeded) }
      else let r =
          swap_loop A spacing fees params start fuel ticks (begin A spacing fees params start) in
        after_loop state (r.0) (r.1)
