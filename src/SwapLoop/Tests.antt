-- ===== src/SwapLoop/Tests.antt =====
-- A swap of 1000 units of token1 into a pool at a price of one, whose store has one tick ahead.
use rm_uniswap.Prelude.{
  ℕ, ◌*◌, ◌^◌, ◌≡◌, refl, sym, inl, inr, arith, true, false, none, some, if◌then◌else◌, ◌==◌,
  ==_iff, Bool-cases,
}
use rm_uniswap.Prelude.Int.{pos, negsuc}
use rm_uniswap.Fee.{Fee, SwapFee}
use rm_uniswap.Params.{SwapParamsInner}
use rm_uniswap.PoolState.{PoolState, exclusive_state}
use rm_uniswap.SqrtPrice.{max_sqrt_price}
use rm_uniswap.SwapLoop.{swap_inner}
use rm_uniswap.SwapLoop.Settlement.{Ready, Returned, swap_inner-Returned}
use rm_uniswap.SwapLoop.Ticks.{Coherent, IsStored, exclusive_ticks-Orderly}
use rm_uniswap.TickInfo.{TickInfo}
use rm_uniswap.TickKey.{from_tick}
use rm_uniswap.TickKey.Key.{IsSpacing}
use rm_uniswap.TickMath.{get_sqrt_price_at_tick}
use rm_uniswap.TickStore.{exclusive_ticks, next_initialized_tick}
use rm_uniswap.TickStore.Cells.{Cells, cells, cells-Laws}

abbrev pub price_one : ℕ
price_one = 79228162514264337593543950336

abbrev fee_3000 : Fee
fee_3000 = record { pips = 3000; complement = 997000 }

abbrev pub fees : SwapFee
fees = record {
  lp_fee = some fee_3000;
  protocol_fee = record { zero_for_one_fee = 0; one_for_zero_fee = 0 };
  zero_for_one_swap_fee = fee_3000;
  one_for_zero_swap_fee = fee_3000;
}

abbrev pub start : PoolState
start = record {
  sqrt_price_x96 = price_one;
  tick = pos 0;
  liquidity = 2 * 10 ^ 18;
  fee_growth_global0_x128 = 0;
  fee_growth_global1_x128 = 0;
}

-- The upper boundary of the liquidity.
abbrev upper : TickInfo
upper = record {
  sqrt_price_x96 = get_sqrt_price_at_tick (pos 60);
  tick_index = pos 60;
  inner = record {
    liquidity_gross = 2 * 10 ^ 18;
    liquidity_net = negsuc 1999999999999999999;
    fee_growth_outside0_x128 = 0;
    fee_growth_outside1_x128 = 0;
  };
}

abbrev pub one_tick : Cells
one_tick = record {
  spacing = 60;
  capacity = 2 ^ 100;
  cell = λ k. if k == from_tick (pos 60) 60 then some upper else none;
}

abbrev pub swap_in : SwapParamsInner
swap_in = record {
  zero_for_one = false;
  amount_specified = negsuc 999;
  sqrt_price_limit = max_sqrt_price;
  lp_fee_override = none;
}

pub sixty-IsSpacing : IsSpacing 60
sixty-IsSpacing = record { positive = omega arith; fits = omega arith }

upper-IsStored : IsStored 60 (from_tick (pos 60) 60) upper
upper-IsStored = record { in_range = omega arith; aligned = refl; price = refl; own_key = refl }

pub one_tick-Coherent : Coherent cells cells-Laws 60 sixty-IsSpacing one_tick
one_tick-Coherent = record {
  spacing_eq = refl;
  stored = λ key info h e. elim (Bool-cases (key == from_tick (pos 60) 60)) [
    | inl same ↦
        let infos : upper ≡ info = cc (rw same at e) in
        let keys : key ≡ from_tick (pos 60) 60 = (==_iff key (from_tick (pos 60) 60)).0 same in
        rw (keys, sym infos) upper-IsStored
    | inr other ↦ cc (rw other at e)
  ];
}

start-Ready :
    Ready
      (exclusive_ticks cells)
      60
      fees
      swap_in
      exclusive_state
      (Coherent cells cells-Laws 60 sixty-IsSpacing)
      start
      one_tick
start-Ready = record {
  orderly = exclusive_ticks-Orderly cells cells-Laws 60 sixty-IsSpacing;
  kept = one_tick-Coherent;
  spacing_pos = omega arith;
  price = record { min_le = omega arith; le_max = omega arith };
  in_range = omega arith;
  liquidity = omega arith;
  limit = record { min_le = omega arith; le_max = omega arith };
  is_fee = record { sum = refl };
  amount = omega arith;
}

swap_inner-Returned_example :
    Returned
      (exclusive_ticks cells)
      60
      fees
      swap_in
      exclusive_state
      (swap_inner (exclusive_ticks cells) exclusive_state 60 fees swap_in 1774546 start one_tick)
swap_inner-Returned_example =
    swap_inner-Returned (exclusive_ticks cells) 60 fees swap_in exclusive_state
      (Coherent cells cells-Laws 60 sixty-IsSpacing) 1774546 start one_tick start-Ready
      (omega arith) (omega arith)

-- At the tick itself, downwards.
found_at :
    next_initialized_tick cells one_tick (from_tick (pos 60) 60) true
    ≡ some (from_tick (pos 60) 60, upper)
unfolding next_initialized_tick
found_at = rw ((==_iff (from_tick (pos 60) 60) (from_tick (pos 60) 60)).1 refl) refl
