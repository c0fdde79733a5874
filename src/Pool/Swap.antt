-- ===== src/Pool/Swap.antt =====
-- About `swap` and `quote_swap` of a pool.
use rm_uniswap.Prelude.{◌≡◌, refl, inl, inr}
use rm_uniswap.Error.{Result-cases}
use rm_uniswap.Params.{SwapParamsInner}
use rm_uniswap.Pool.{Pool, swap, quote_swap, swap_fuel, swap_fees}
use rm_uniswap.Position.{PositionsAccess}
use rm_uniswap.SwapLoop.Quote.{swap_inner-Alike}
use rm_uniswap.TickKey.Key.{IsSpacing}
use rm_uniswap.TickStore.{TickStore}
use rm_uniswap.TickStore.Alike.{Alike}
use rm_uniswap.TickStore.Laws.{StoreLaws}

module _ (store : TickStore) (laws : StoreLaws store) (access : PositionsAccess) where
  same-Alike :
      (ticks : store.Ticks) → IsSpacing (store.tick_spacing ticks) → Alike store ticks ticks
  same-Alike ticks h = record { is_spacing = h; spacing_eq = refl; outline_eq = λ key k. refl }

  -- Over a store that keeps its promises and has a nonzero 15-bit spacing, `quote_swap` has the
  -- result of `swap`, errors included.
  pub quote_swap-eq-swap :
      (p : Pool store access) (params : SwapParamsInner)
      → IsSpacing (store.tick_spacing p.ticks)
      → quote_swap store access p params ≡ (swap store access p params).1
  unfolding quote_swap swap
  quote_swap-eq-swap p params h =
      elim (Result-cases (swap_fees store access p.swap_fee params.lp_fee_override)) [
        | inr (e, refused) ↦ rw refused
        | inl (fees, ready) ↦ rw ready (
            swap_inner-Alike store laws p.tick_spacing fees params swap_fuel p.state p.ticks p.ticks
              (same-Alike p.ticks h))
      ]
