-- ===== src/PoolState.antt =====
-- core/types/pool_state.rs: the state that a swap moves, and the trait `StateAccess` with its two
-- implementations, `&PoolState` and `&mut PoolState`.
use rm_uniswap.Prelude.{ℕ, Bool, if◌then◌else◌}
use rm_uniswap.Prelude.Int.{ℤ}

pub record PoolState : Type 0 where
  pub sqrt_price_x96 : ℕ
  pub tick : ℤ
  pub liquidity : ℕ
  pub fee_growth_global0_x128 : ℕ
  pub fee_growth_global1_x128 : ℕ

-- The trait: `set` takes the tick, the price, the liquidity, the direction and the fee growth of the
-- input token.
pub record StateAccess : Type 1 where
  pub State : Type 0
  pub get : State → PoolState
  pub set : State → ℤ → ℕ → ℕ → Bool → ℕ → State

-- `&PoolState`, whose `set` does nothing.
abbrev pub shared_state : StateAccess
shared_state = record {
  State = PoolState;
  get = λ s. s;
  set = λ s tick price liquidity zero_for_one growth. s;
}

abbrev pub set_state : PoolState → ℤ → ℕ → ℕ → Bool → ℕ → PoolState
set_state s tick price liquidity zero_for_one growth = record {
  sqrt_price_x96 = price;
  tick = tick;
  liquidity = liquidity;
  fee_growth_global0_x128 = if zero_for_one then growth else s.fee_growth_global0_x128;
  fee_growth_global1_x128 = if zero_for_one then s.fee_growth_global1_x128 else growth;
}

-- `&mut PoolState`.
abbrev pub exclusive_state : StateAccess
exclusive_state = record { State = PoolState; get = λ s. s; set = set_state }
