-- ===== src/TickPage/Tests.antt =====
-- A page with ticks in slots 3 and 17.
use rm_uniswap.Prelude.{◌+◌, ◌*◌, ◌^◌, ◌≡◌, ◌==◌, none, some, if◌then◌else◌, arith}
use rm_uniswap.Prelude.Int.{pos}
use rm_uniswap.TickInfo.{new_info}
use rm_uniswap.TickKey.{slot_index}
use rm_uniswap.TickPage.{TickSlabValue, info_default, get, insert, remove_tick}
use rm_uniswap.TickPage.Payload.{get-writes}
use rm_uniswap.TickPage.Slots.{AreNearest, slots-AreNearest}

abbrev page : TickSlabValue
page = record {
  slots = λ i. new_info (pos (60 * i)) i;
  initialized_map = 2 ^ 17 + 2 ^ 3;
  prev_idx = none;
  next_idx = some 4;
}

slots-AreNearest_example : AreNearest page 35
slots-AreNearest_example = slots-AreNearest page (omega arith) 35

get-writes_example :
    (get (insert page 35 info_default) 49
      ≡ (if slot_index 49 == slot_index 35 then some info_default else get page 49))
    × (get (remove_tick page 35) 49
        ≡ (if slot_index 49 == slot_index 35 then none else get page 49))
get-writes_example = get-writes page 35 (omega arith) info_default 49
