-- ===== src/TickInfo.antt =====
-- core/types/ticks.rs: what the tick store keeps at an initialized tick.
use rm_uniswap.Prelude.{ℕ, ◌==◌, Bool}
use rm_uniswap.Prelude.Int.{ℤ, pos}

pub record TickInfoInner : Type 0 where
  pub liquidity_gross : ℕ
  pub liquidity_net : ℤ
  pub fee_growth_outside0_x128 : ℕ
  pub fee_growth_outside1_x128 : ℕ

pub record TickInfo : Type 0 where
  pub sqrt_price_x96 : ℕ
  pub tick_index : ℤ
  pub inner : TickInfoInner

-- `TickInfoInner::DEFAULT`.
abbrev pub inner_default : TickInfoInner
inner_default = record {
  liquidity_gross = 0;
  liquidity_net = pos 0;
  fee_growth_outside0_x128 = 0;
  fee_growth_outside1_x128 = 0;
}

-- `TickInfo::new`.
abbrev pub new_info : ℤ → ℕ → TickInfo
new_info tick price = record { sqrt_price_x96 = price; tick_index = tick; inner = inner_default }

abbrev pub is_liquidity_empty : TickInfo → Bool
is_liquidity_empty info = info.inner.liquidity_gross == 0
