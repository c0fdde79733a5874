-- ===== src/TickStore.antt =====
-- core/concentrated/ticks/mod.rs: the trait `TickAccess` and its two implementations, over the
-- operations of `TickSlab` (core/concentrated/ticks/slab.rs) that the pool uses. A tick is found under
-- the slab key of `TickKey`.
pub mod Alike
pub mod Cells
pub mod Laws
use mathlib.Core.Option
use rm_uniswap.Prelude.{ℕ, ◌<◌, Bool, true, false, Option, none, some, if◌then◌else◌}
use rm_uniswap.Prelude.Int.{ℤ}
use rm_uniswap.Error.{Result, ok, err, ◌>>=◌, ok_or, invalid_tick, missing_initialized_tick}
use rm_uniswap.TickInfo.{TickInfo, TickInfoInner}
use rm_uniswap.TickKey.{from_tick}
use rm_uniswap.Word.{wrapping_sub}

-- The operations of `TickSlab`. `set_inner` writes through the `&mut TickInfo` of `get_mut`.
pub record TickStore : Type 1 where
  pub Ticks : Type 0
  pub tick_spacing : Ticks → ℕ
  pub max_liquidity_per_tick : Ticks → ℕ
  pub get : Ticks → ℕ → Option TickInfo
  pub next : Ticks → ℕ → Option (ℕ × TickInfo)
  pub prev : Ticks → ℕ → Option (ℕ × TickInfo)
  pub insert : Ticks → ℕ → TickInfo → Result Ticks
  pub set_inner : Ticks → ℕ → TickInfoInner → Ticks
  pub remove : Ticks → ℕ → Ticks

-- The trait.
pub record TickAccess : Type 1 where
  pub Ticks : Type 0
  pub indexer : Ticks → ℤ → ℕ
  pub cross_tick : Ticks → ℕ → ℕ → ℕ → Result (Ticks × ℤ)
  pub next_initialized_tick : Ticks → ℕ → Bool → Option (ℕ × TickInfo)

module _ (store : TickStore) where
  open store use {Ticks, get, next, prev, set_inner}

  unfoldable pub indexer : Ticks → ℤ → ℕ
  indexer ticks tick = from_tick tick (store.tick_spacing ticks)

  -- `Option::map(..).or_else(..)`.
  abbrev pub at_or_below : ℕ → Option TickInfo → Option (ℕ × TickInfo) → Option (ℕ × TickInfo)
  at_or_below key (some info) below = some (key, info)
  at_or_below key none below = below

  unfoldable pub next_initialized_tick : Ticks → ℕ → Bool → Option (ℕ × TickInfo)
  next_initialized_tick ticks key zero_for_one =
      if zero_for_one then at_or_below key (get ticks key) (prev ticks key) else next ticks key

  -- The closure of `update_initialized_tick` returns the new payload and its result.
  abbrev pub updated :
      {T : Type 0}
      → Ticks
      → ℕ
      → (TickInfo → Result (TickInfoInner × T))
      → Option TickInfo
      → Result (Ticks × T)
  updated ticks key update none = err missing_initialized_tick
  updated ticks key update (some info) = update info >>= λ r. ok (set_inner ticks key (r.0), r.1)

  unfoldable pub update_initialized_tick :
      {T : Type 0} → Ticks → ℕ → (TickInfo → Result (TickInfoInner × T)) → Result (Ticks × T)
  update_initialized_tick ticks key update = updated ticks key update (get ticks key)

  -- The fee growth outside a crossed tick is what was inside.
  abbrev pub flip : ℕ → ℕ → TickInfoInner → TickInfoInner
  flip global0 global1 inner = record inner {
    fee_growth_outside0_x128 = wrapping_sub 256 global0 inner.fee_growth_outside0_x128;
    fee_growth_outside1_x128 = wrapping_sub 256 global1 inner.fee_growth_outside1_x128;
  }

  unfoldable pub cross_tick : Ticks → ℕ → ℕ → ℕ → Result (Ticks × ℤ)
  unfolding update_initialized_tick
  cross_tick ticks key global0 global1 =
      update_initialized_tick ticks key
        λ info. ok (flip global0 global1 info.inner, info.inner.liquidity_net)

  -- `cross_tick` of `&TickSlab`.
  unfoldable pub observe_tick : Ticks → ℕ → ℕ → ℕ → Result (Ticks × ℤ)
  observe_tick ticks key global0 global1 =
      ok_or (get ticks key) invalid_tick >>= λ info. ok (ticks, info.inner.liquidity_net)

  -- `&TickSlab` and `&mut TickSlab`.
  abbrev pub shared_ticks : TickAccess
  shared_ticks = record {
    Ticks = Ticks;
    indexer = indexer;
    cross_tick = observe_tick;
    next_initialized_tick = next_initialized_tick;
  }

  abbrev pub exclusive_ticks : TickAccess
  exclusive_ticks = record {
    Ticks = Ticks;
    indexer = indexer;
    cross_tick = cross_tick;
    next_initialized_tick = next_initialized_tick;
  }
