-- ===== src/TickKey/Tests.antt =====
-- Keys of aligned ticks on both sides of zero.
use rm_uniswap.Prelude.{◌<◌, ◌≡◌, ◌↔◌, refl, arith}
use rm_uniswap.Prelude.Int.{pos, negsuc, ◌<ℤ◌}
use rm_uniswap.TickKey.{from_tick, to_tick}
use rm_uniswap.TickKey.Key.{IsSpacing, from_tick-order, to_tick-from_tick}

sixty-IsSpacing : IsSpacing 60
sixty-IsSpacing = record { positive = omega arith; fits = omega arith }

to_tick-from_tick_example : to_tick (from_tick (negsuc 887219) 60) 60 ≡ negsuc 887219
to_tick-from_tick_example = to_tick-from_tick (negsuc 887219) 60 (omega arith) sixty-IsSpacing refl

from_tick-order_example : (from_tick (negsuc 59) 60 < from_tick (pos 120) 60) ↔ (negsuc 0 <ℤ pos 2)
from_tick-order_example =
    from_tick-order (negsuc 59) (pos 120) 60 (omega arith) (omega arith) sixty-IsSpacing
