-- ===== src/Pool.antt =====
-- core/concentrated/pool.rs: the pool and its operations, over a tick store and a trait of positions. An
-- operation returns the pool on both paths, since what was written before an error stays written.
pub mod FeeGrowth
pub mod Liquidity
pub mod Swap
mod Tests
pub mod Ticks
use rm_uniswap.Prelude.{
  ℕ, ◌+◌, ◌-◌, ◌^◌, ◌<◌, Bool, true, false, not, ltb, leb, ◌==◌, if◌then◌else◌, ◌&&◌, Option, none,
  some,
}
use rm_uniswap.Prelude.Int.{ℤ, pos, abs, ltb_ℤ, leb_ℤ, ◌+ℤ◌, ◌-ℤ◌}
use rm_uniswap.BalanceDelta.{BalanceDelta, fit_i128, from_liquidity_principal}
use rm_uniswap.BalanceDelta.{from_u256}
use rm_uniswap.Error.{
  Result, ok, err, ◌>>=◌, ok_or, invalid_tick, i128_overflow, liquidity_overflow,
}
use rm_uniswap.Fee.{Fee, SwapFee, ProtocolFee, set_lp_fee, set_protocol_fee}
use rm_uniswap.Params.{SwapParamsInner, SwapResult, ModifyLiquidityParams, ModifyLiquidityResult}
use rm_uniswap.PoolState.{PoolState, shared_state, exclusive_state}
use rm_uniswap.Position.{PositionIndex, PositionState, PositionsAccess, update}
use rm_uniswap.SqrtPrice.{min_sqrt_price}
use rm_uniswap.SwapLoop.{Outcome, swap_inner, checked_add_signed}
use rm_uniswap.TickInfo.{TickInfo, TickInfoInner, new_info}
use rm_uniswap.TickKey.{for_spacing}
use rm_uniswap.TickMath.{get_sqrt_price_at_tick}
use rm_uniswap.TickStore.{
  TickStore, indexer, update_initialized_tick, shared_ticks, exclusive_ticks,
}
use rm_uniswap.Word.{wrapping_sub}

-- `validate_tick_index_for_spacing` and `check_ticks`.
pub validate_tick_index_for_spacing : ℤ → ℕ → Result (Unit {0})
validate_tick_index_for_spacing tick spacing =
    if for_spacing tick spacing then ok tt else err invalid_tick

pub check_ticks : ℤ → ℤ → ℕ → Result (Unit {0})
unfolding validate_tick_index_for_spacing
check_ticks tick_lower tick_upper spacing =
    if leb_ℤ tick_upper tick_lower
    then err invalid_tick
    else (validate_tick_index_for_spacing tick_lower spacing >>= λ _.
        validate_tick_index_for_spacing tick_upper spacing)

-- Fee growth outside the two boundaries, for both tokens.
pub record Outside : Type 0 where
  pub lower0 : ℕ
  pub lower1 : ℕ
  pub upper0 : ℕ
  pub upper1 : ℕ

-- `Pool::fee_growth_inside`, of the pool's state.
pub fee_growth_inside : PoolState → ℤ → ℤ → Outside → ℕ × ℕ
fee_growth_inside s tick_lower tick_upper o =
    if ltb_ℤ s.tick tick_lower
    then (wrapping_sub 256 o.lower0 o.upper0, wrapping_sub 256 o.lower1 o.upper1)
    else if leb_ℤ tick_upper s.tick
    then (wrapping_sub 256 o.upper0 o.lower0, wrapping_sub 256 o.upper1 o.lower1)
    else (
      wrapping_sub 256 (wrapping_sub 256 s.fee_growth_global0_x128 o.lower0) o.upper0,
      wrapping_sub 256 (wrapping_sub 256 s.fee_growth_global1_x128 o.lower1) o.upper1,
    )

module _ (store : TickStore) where
  -- The tick, or a new one.
  abbrev pub found_or_new : store.Ticks → ℕ → ℤ → Option TickInfo → Result (store.Ticks × TickInfo)
  found_or_new ticks key tick (some info) = ok (ticks, info)
  found_or_new ticks key tick none =
      let info = new_info tick (get_sqrt_price_at_tick tick) in
      store.insert ticks key info >>= λ ticks'. ok (ticks', info)

  -- The liquidity of a tick after the change: gross and net.
  pub changed_liquidity : store.Ticks → TickInfoInner → ℤ → Bool → Result (ℕ × ℤ)
  changed_liquidity ticks inner liquidity_delta upper =
      ok_or (checked_add_signed inner.liquidity_gross liquidity_delta) i128_overflow >>= λ gross.
      if ltb_ℤ (pos 0) liquidity_delta && ltb (store.max_liquidity_per_tick ticks) gross
      then err liquidity_overflow
      else (ok_or
            (fit_i128 (
              if upper
              then inner.liquidity_net -ℤ liquidity_delta
              else inner.liquidity_net +ℤ liquidity_delta))
            i128_overflow
          >>= λ net. ok (gross, net))

  -- The payload that the closure of `update_tick` writes.
  abbrev pub written : PoolState → ℤ → Bool → ℕ × ℤ → TickInfoInner → TickInfoInner
  written s tick fresh change inner =
      let below = fresh && leb_ℤ tick s.tick in
      record {
        liquidity_gross = change.0;
        liquidity_net = change.1;
        fee_growth_outside0_x128 =
            if below then s.fee_growth_global0_x128 else inner.fee_growth_outside0_x128;
        fee_growth_outside1_x128 =
            if below then s.fee_growth_global1_x128 else inner.fee_growth_outside1_x128;
      }

  abbrev pub or_keep :
      {X : Type 0} → store.Ticks → Result (store.Ticks × X) → store.Ticks × Result X
  or_keep ticks (err e) = (ticks, err e)
  or_keep ticks (ok r) = (r.0, ok (r.1))

  abbrev pub write_tick :
      PoolState → store.Ticks → ℕ → ℤ → TickInfo → Result (ℕ × ℤ) → store.Ticks × Result (ℕ × ℕ × ℕ)
  write_tick s ticks key tick before (err e) = (ticks, err e)
  write_tick s ticks key tick before (ok change) =
      if change.0 == 0
      then (
        store.remove ticks key,
        ok (
          before.sqrt_price_x96, before.inner.fee_growth_outside0_x128,
          before.inner.fee_growth_outside1_x128,
        ),
      )
      else or_keep ticks (
          update_initialized_tick store ticks key λ info.
            let inner = written s tick (before.inner.liquidity_gross == 0) change info.inner in
            ok (
              inner,
              (info.sqrt_price_x96, inner.fee_growth_outside0_x128, inner.fee_growth_outside1_x128),
            ))

  abbrev pub change_tick :
      PoolState
      → store.Ticks
      → ℕ
      → ℤ
      → ℤ
      → Bool
      → Result (store.Ticks × TickInfo)
      → store.Ticks × Result (ℕ × ℕ × ℕ)
  change_tick s ticks key tick liquidity_delta upper (err e) = (ticks, err e)
  change_tick s ticks key tick liquidity_delta upper (ok (ticks', before)) =
      write_tick s ticks' key tick before
        (changed_liquidity ticks' before.inner liquidity_delta upper)

  -- `Pool::update_tick`: the boundary's price and the fee growth outside it.
  pub update_tick : PoolState → store.Ticks → ℤ → ℤ → Bool → store.Ticks × Result (ℕ × ℕ × ℕ)
  unfolding changed_liquidity
  update_tick s ticks tick liquidity_delta upper =
      let key = indexer store ticks tick in
      change_tick s ticks key tick liquidity_delta upper
        (found_or_new ticks key tick (store.get ticks key))

-- `Pool`; `ticks` is of the store and `positions` of the trait.
pub record Pool (store : TickStore) (access : PositionsAccess) : Type 0 where
  pub state : PoolState
  pub swap_fee : SwapFee
  pub tick_spacing : ℕ
  pub ticks : store.Ticks
  pub positions : access.Positions

-- The fuel of a swap: one more than the ticks of the protocol's range.
abbrev pub swap_fuel : ℕ
swap_fuel = 1774546

module _ (store : TickStore) (access : PositionsAccess) where
  -- The next step of an operation, if the last one succeeded; the pool is kept on both paths.
  abbrev pub and_then :
      {X Y : Type 0}
      → Pool store access × Result X
      → (Pool store access → X → Pool store access × Result Y)
      → Pool store access × Result Y
  and_then (p, err e) next = (p, err e)
  and_then (p, ok x) next = next p x

  abbrev pub with_ticks :
      {X : Type 0} → Pool store access → store.Ticks × Result X → Pool store access × Result X
  with_ticks p r = (record p { ticks = r.0 }, r.1)

  -- Fee growth outside a boundary that is only read.
  abbrev pub outside_of : Option TickInfo → ℕ × ℕ
  outside_of none = (0, 0)
  outside_of (some info) =
      (info.inner.fee_growth_outside0_x128, info.inner.fee_growth_outside1_x128)

  -- The boundaries' prices and fee growth outside.
  pub record Bounds : Type 0 where
    pub lower_price : ℕ
    pub upper_price : ℕ
    pub outside : Outside

  abbrev pub bounds_of : ℕ × ℕ × ℕ → ℕ × ℕ × ℕ → Bounds
  bounds_of lower upper = record {
    lower_price = lower.0;
    upper_price = upper.0;
    outside = record { lower0 = lower.1; lower1 = lower.2; upper0 = upper.1; upper1 = upper.2 };
  }

  -- Both boundaries: written where liquidity changes, read where it does not.
  pub update_ticks : Pool store access → ModifyLiquidityParams → Pool store access × Result Bounds
  unfolding update_tick
  update_ticks p params =
      if not (abs params.liquidity_delta == 0)
      then and_then
          (with_ticks p
            (update_tick store p.state p.ticks params.tick_lower params.liquidity_delta false))
          (λ p1 lower.
            and_then
              (with_ticks p1
                (update_tick store p1.state p1.ticks params.tick_upper params.liquidity_delta true))
              (λ p2 upper. (p2, ok (bounds_of lower upper))))
      else (let lower = outside_of (store.get p.ticks (indexer store p.ticks params.tick_lower)) in
          let upper = outside_of (store.get p.ticks (indexer store p.ticks params.tick_upper)) in
          (p, ok (bounds_of (min_sqrt_price, lower.0, lower.1) (min_sqrt_price, upper.0, upper.1))))

  abbrev pub zero_delta : BalanceDelta
  zero_delta = record { amount0 = pos 0; amount1 = pos 0 }

  -- The closure on a position: `update`, then the fees as a delta.
  abbrev pub fee_closure : ℤ → ℕ × ℕ → PositionState → PositionState × Result BalanceDelta
  fee_closure liquidity_delta growth position =
      let r = update position liquidity_delta (growth.0) (growth.1) in
      (r.0, r.1 >>= λ owed. from_u256 (owed.0) (owed.1))

  pub realize_fees :
      Pool store access → ModifyLiquidityParams → Outside → Pool store access × Result BalanceDelta
  unfolding fee_growth_inside
  realize_fees p params outside =
      if access.enable
      then (let growth = fee_growth_inside p.state params.tick_lower params.tick_upper outside in
          let index : PositionIndex = record {
            owner = params.owner;
            tick_lower = params.tick_lower;
            tick_upper = params.tick_upper;
            salt = params.salt;
          } in
          let r =
            access.update_position p.positions index (fee_closure params.liquidity_delta growth) in
          (record p { positions = r.0 }, r.1))
      else (p, ok zero_delta)

  abbrev pub set_active : Pool store access → Option ℕ → Pool store access × Result (Unit {0})
  set_active p none = (p, err liquidity_overflow)
  set_active p (some liquidity) =
      (record p { state = record p.state { liquidity = liquidity } }, ok tt)

  -- Active liquidity, where the current tick is inside of the range.
  abbrev pub change_active :
      Pool store access → ModifyLiquidityParams → Pool store access × Result (Unit {0})
  change_active p params =
      if leb_ℤ params.tick_lower p.state.tick && ltb_ℤ p.state.tick params.tick_upper
      then set_active p (checked_add_signed p.state.liquidity params.liquidity_delta)
      else (p, ok tt)

  pub principal :
      Pool store access → ModifyLiquidityParams → Bounds → Pool store access × Result BalanceDelta
  principal p params bounds =
      if not (abs params.liquidity_delta == 0)
      then and_then (change_active p params) (λ p1 _. (
        p1,
        from_liquidity_principal p1.state.tick params.tick_lower params.tick_upper
            p1.state.sqrt_price_x96 bounds.lower_price bounds.upper_price params.liquidity_delta,
      ))
      else (p, ok zero_delta)

  pub modify_liquidity :
      Pool store access → ModifyLiquidityParams → Pool store access × Result ModifyLiquidityResult
  unfolding check_ticks update_ticks realize_fees principal
  modify_liquidity p params =
      and_then (p, check_ticks params.tick_lower params.tick_upper p.tick_spacing)
        (λ p0 _. and_then (update_ticks p0 params) (λ p1 bounds.
          and_then (realize_fees p1 params bounds.outside) (λ p2 fee_delta.
            and_then (principal p2 params bounds)
              (λ p3 delta. (p3, ok (record { delta = delta; fee_delta = fee_delta }))))))

  pub quote_modify_liquidity : Pool store access → ModifyLiquidityParams → Result BalanceDelta
  unfolding check_ticks
  quote_modify_liquidity p params =
      check_ticks params.tick_lower params.tick_upper p.tick_spacing >>= λ _.
      from_liquidity_principal p.state.tick params.tick_lower params.tick_upper
        p.state.sqrt_price_x96 (get_sqrt_price_at_tick params.tick_lower)
        (get_sqrt_price_at_tick params.tick_upper) params.liquidity_delta

  -- The fees of a swap, with the LP fee of the parameters where they have one.
  abbrev pub swap_fees : SwapFee → Option Fee → Result SwapFee
  swap_fees fees none = ok fees
  swap_fees fees (some lp_fee) = set_lp_fee fees lp_fee

  abbrev pub swap_with :
      Pool store access
      → SwapParamsInner
      → Result SwapFee
      → Pool store access × Option (Result SwapResult)
  swap_with p params (err e) = (p, some (err e))
  swap_with p params (ok fees) =
      let o =
        swap_inner (exclusive_ticks store) exclusive_state p.tick_spacing fees params swap_fuel
          p.state p.ticks in
      (record p { state = o.state; ticks = o.ticks }, o.result)

  -- `Pool::swap`: the new pool and the result.
  pub swap : Pool store access → SwapParamsInner → Pool store access × Option (Result SwapResult)
  swap p params = swap_with p params (swap_fees p.swap_fee params.lp_fee_override)

  abbrev pub quote_with :
      Pool store access → SwapParamsInner → Result SwapFee → Option (Result SwapResult)
  quote_with p params (err e) = some (err e)
  quote_with p params (ok fees) =
      (swap_inner (shared_ticks store) shared_state p.tick_spacing fees params swap_fuel p.state
        p.ticks).result

  pub quote_swap : Pool store access → SwapParamsInner → Option (Result SwapResult)
  quote_swap p params = quote_with p params (swap_fees p.swap_fee params.lp_fee_override)

  abbrev pub with_fee : Pool store access → Result SwapFee → Pool store access × Result (Unit {0})
  with_fee p (err e) = (p, err e)
  with_fee p (ok fee) = (record p { swap_fee = fee }, ok tt)

  -- `Pool::set_protocol_fee`.
  pub set_pool_protocol_fee :
      Pool store access → ProtocolFee → Pool store access × Result (Unit {0})
  set_pool_protocol_fee p protocol_fee = with_fee p (set_protocol_fee p.swap_fee protocol_fee)
