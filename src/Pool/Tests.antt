-- ===== src/Pool/Tests.antt =====
-- A pool at a price of one with a tick on each side, and a deposit into an empty pool.
use mathlib.Core.List.{[]}
use rm_uniswap.Prelude.{
  ℕ, ◌*◌, ◌-◌, ◌^◌, ◌≡◌, refl, sym, inl, arith, true, none, le_mul_div_ceil, div_ceil_mul_lt,
}
use rm_uniswap.Prelude.Int.{pos, negsuc, ◌-ℤ◌, ◌+ℤ◌}
use rm_uniswap.BalanceDelta.{
  from_liquidity_principal, amount1_delta_for_liquidity_change, liquidity_amount_to_i128, from_u256,
  u256_to_i128_positive,
}
use rm_uniswap.BalanceDelta.Narrow.{u256_to_i128_negative_lem}
use rm_uniswap.SqrtPriceMath.Amounts.{rounded, distance, get_amount1_delta_lem}
use rm_uniswap.Error.{ok}
use rm_uniswap.Params.{ModifyLiquidityParams, ModifyLiquidityResult}
use rm_uniswap.Pool.{
  Pool, check_ticks, validate_tick_index_for_spacing, update_ticks, realize_fees, principal,
  changed_liquidity, fee_growth_inside, update_tick, quote_swap, swap, modify_liquidity,
}
use rm_uniswap.Pool.FeeGrowth.{outside_at, fee_growth_inside-flip}
use rm_uniswap.Pool.Liquidity.{Modified, modify_liquidity-Modified}
use rm_uniswap.Pool.Swap.{quote_swap-eq-swap}
use rm_uniswap.Pool.Ticks.{Changed, update_tick-Changed}
use rm_uniswap.PoolState.{PoolState}
use rm_uniswap.Position.{
  update, new_liquidity, fees_owed, update_entry, no_positions, stored_positions,
}
use rm_uniswap.SwapLoop.Ticks.{Coherent}
use rm_uniswap.SwapLoop.Tests.{
  price_one, start, one_tick, fees, swap_in, sixty-IsSpacing, one_tick-Coherent,
}
use rm_uniswap.TickInfo.{TickInfoInner}
use rm_uniswap.TickKey.{from_tick, encode}
use rm_uniswap.Word.{leading_zeros, bit_len, trailing_zeros}
use rm_uniswap.TickMath.{ratio_of, multiply_bits, mul_hi_u128, get_sqrt_price_at_tick}
use rm_uniswap.TickStore.{flip, indexer, update_initialized_tick}
use rm_uniswap.TickStore.Cells.{cells, cells-Laws}

abbrev pool : Pool cells no_positions
pool = record {
  state = start;
  swap_fee = fees;
  tick_spacing = 60;
  ticks = one_tick;
  positions = tt;
}

quote_swap-eq-swap_example :
    quote_swap cells no_positions pool swap_in ≡ (swap cells no_positions pool swap_in).1
quote_swap-eq-swap_example =
    quote_swap-eq-swap cells cells-Laws no_positions pool swap_in sixty-IsSpacing

-- Fee growth at the state and outside of two boundaries.
abbrev grown : PoolState
grown = record start { fee_growth_global0_x128 = 900; fee_growth_global1_x128 = 50 }

abbrev outside_by : ℕ → ℕ → TickInfoInner
outside_by a b = record {
  liquidity_gross = 5;
  liquidity_net = pos 5;
  fee_growth_outside0_x128 = a;
  fee_growth_outside1_x128 = b;
}

-- From tick 0 over the upper boundary at 60 to tick 75.
fee_growth_inside-flip_example :
    fee_growth_inside
      (record grown { tick = pos 75 })
      (negsuc 59)
      (pos 60)
      (outside_at (outside_by 100 7) (flip cells 900 50 (outside_by 30 (2 ^ 256 - 1))))
    ≡ fee_growth_inside grown
        (negsuc 59)
        (pos 60)
        (outside_at (outside_by 100 7) (outside_by 30 (2 ^ 256 - 1)))
fee_growth_inside-flip_example =
    fee_growth_inside-flip cells grown (pos 75) (negsuc 59) (pos 60) (outside_by 100 7)
      (outside_by 30 (2 ^ 256 - 1)) true
      (record {
        global0 = omega arith;
        global1 = omega arith;
        lower0 = omega arith;
        lower1 = omega arith;
        upper0 = omega arith;
        upper1 = omega arith;
      })
      (omega arith) (inl (omega arith, omega arith, omega arith))

-- Half of the liquidity is taken off the upper boundary.
abbrev half_off : TickInfoInner
half_off = record {
  liquidity_gross = 10 ^ 18;
  liquidity_net = negsuc 999999999999999999;
  fee_growth_outside0_x128 = 0;
  fee_growth_outside1_x128 = 0;
}

abbrev upper_key : ℕ
upper_key = from_tick (pos 60) 60

after_half :
    update_tick cells start one_tick (pos 60) (negsuc 999999999999999999) true
    ≡ (cells.set_inner one_tick upper_key half_off, ok (get_sqrt_price_at_tick (pos 60), 0, 0))
unfolding update_tick changed_liquidity indexer update_initialized_tick ◌-ℤ◌ from_tick encode
    leading_zeros bit_len
after_half = refl

update_tick-Changed_example :
    Coherent cells cells-Laws 60 sixty-IsSpacing (cells.set_inner one_tick upper_key half_off)
    × Changed cells one_tick
        (cells.set_inner one_tick upper_key half_off)
        upper_key
        (negsuc 999999999999999999)
        true
update_tick-Changed_example =
    update_tick-Changed cells cells-Laws 60 sixty-IsSpacing start one_tick
      (cells.set_inner one_tick upper_key half_off) (pos 60) (negsuc 999999999999999999) true
      (get_sqrt_price_at_tick (pos 60), 0, 0) (omega arith) refl one_tick-Coherent after_half

-- A deposit of 1000 units from tick 0 to tick 60, into a pool without ticks at tick 75.
abbrev empty_pool : Pool cells stored_positions
empty_pool = record {
  state = record start { tick = pos 75; liquidity = 0 };
  swap_fee = fees;
  tick_spacing = 60;
  ticks = record { spacing = 60; capacity = 2 ^ 100; cell = λ k. none };
  positions = [];
}

abbrev deposit : ModifyLiquidityParams
deposit = record {
  tick_lower = pos 0;
  tick_upper = pos 60;
  liquidity_delta = pos 1000;
  owner = 7;
  salt = 0;
}

abbrev deposited : ModifyLiquidityResult
deposited = record {
  delta = record { amount0 = pos 0; amount1 = negsuc 3 };
  fee_delta = record { amount0 = pos 0; amount1 = pos 0 };
}

abbrev price_60 : ℕ
price_60 = 79466191966197645195421774833

rounded_60 : rounded true (1000 * distance price_one price_60) (2 ^ 96) ≡ 4
rounded_60 = omega (
  arith,
  le_mul_div_ceil (1000 * distance price_one price_60) (2 ^ 96) (omega arith),
  div_ceil_mul_lt (1000 * distance price_one price_60) (2 ^ 96) (omega arith),
)

principal_60 :
    from_liquidity_principal (pos 75) (pos 0) (pos 60) price_one price_one price_60 (pos 1000)
    ≡ ok (deposited.delta)
unfolding from_liquidity_principal amount1_delta_for_liquidity_change liquidity_amount_to_i128
principal_60 =
    rw
      (
        get_amount1_delta_lem price_one price_60 1000 true
            (record { min_le = omega arith; le_max = omega arith })
            (record { min_le = omega arith; le_max = omega arith }) (omega arith),
        rounded_60,
        u256_to_i128_negative_lem 4 (omega arith),
      )
      refl

deposit_result : (modify_liquidity cells stored_positions empty_pool deposit).1 ≡ ok deposited
unfolding modify_liquidity check_ticks validate_tick_index_for_spacing update_ticks update_tick
    changed_liquidity realize_fees principal fee_growth_inside indexer update_initialized_tick ◌-ℤ◌
    ◌+ℤ◌ from_tick encode leading_zeros bit_len get_sqrt_price_at_tick ratio_of multiply_bits
    mul_hi_u128 trailing_zeros update new_liquidity fees_owed update_entry from_u256
    u256_to_i128_positive
deposit_result = rw principal_60 refl

paired : {A B : Type 0} (r : A × B) (b : B) → r.1 ≡ b → r ≡ (r.0, b)
paired r b e = rw (sym e) refl

modify_liquidity-Modified_example :
    Modified cells stored_positions empty_pool
      (modify_liquidity cells stored_positions empty_pool deposit).0
      deposit
      60
      cells-Laws
      sixty-IsSpacing
modify_liquidity-Modified_example =
    modify_liquidity-Modified cells stored_positions cells-Laws 60 sixty-IsSpacing empty_pool
      ((modify_liquidity cells stored_positions empty_pool deposit).0) deposit deposited refl
      (record { spacing_eq = refl; stored = λ key info h e. cc e }) (omega arith) (omega arith)
      (omega arith)
      (paired (modify_liquidity cells stored_positions empty_pool deposit) (ok deposited)
        deposit_result)
