-- ===== src/TickPage.antt =====
-- core/concentrated/ticks/slab_value.rs: `TickSlabValue`, a page of 32 ticks with a bitmap of those that
-- are initialized. The array of slots is a function of the slot index, which is below 32.
pub mod Payload
pub mod Slots
mod Tests
use mathlib.Core.Option
use Prim.Native.Nat.{bit_and, bit_or}
use rm_uniswap.Prelude.{
  ℕ, zero, suc, ◌+◌, ◌-◌, ◌/◌, ◌%◌, ◌^◌, Bool, not, ◌==◌, if◌then◌else◌, Option, none, some,
}
use rm_uniswap.Prelude.Int.{neg, pos}
use rm_uniswap.SqrtPrice.{min_sqrt_price}
use rm_uniswap.TickInfo.{TickInfo, inner_default}
use rm_uniswap.TickKey.{slot_index}
use rm_uniswap.TickMath.{max_tick}
use rm_uniswap.Word.{shl, trailing_zeros, leading_zeros}

-- `TickInfo::DEFAULT`.
abbrev pub info_default : TickInfo
info_default = record {
  sqrt_price_x96 = min_sqrt_price;
  tick_index = neg (pos max_tick);
  inner = inner_default;
}

pub record TickSlabValue : Type 0 where
  pub slots : ℕ → TickInfo
  pub initialized_map : ℕ
  pub prev_idx : Option ℕ
  pub next_idx : Option ℕ

-- `TickSlabValue::new`.
abbrev pub new_page : Option ℕ → Option ℕ → TickSlabValue
new_page prev_idx next_idx = record {
  slots = λ i. info_default;
  initialized_map = 0;
  prev_idx = prev_idx;
  next_idx = next_idx;
}

-- `count_ones` of a word of width `w`.
unfoldable pub count_ones : ℕ → ℕ → ℕ
count_ones zero x = 0
count_ones (suc w) x = x % 2 + count_ones w (x / 2)

unfoldable pub initialized : TickSlabValue → ℕ
unfolding count_ones
initialized page = count_ones 32 page.initialized_map

unfoldable pub is_initialized : TickSlabValue → ℕ → Bool
is_initialized page key = not (bit_and page.initialized_map (shl 32 1 (slot_index key)) == 0)

-- `self.slots[slot] = tick_info`.
abbrev pub with_slot : (ℕ → TickInfo) → ℕ → TickInfo → ℕ → TickInfo
with_slot slots slot info i = if i == slot then info else slots i

unfoldable pub insert : TickSlabValue → ℕ → TickInfo → TickSlabValue
insert page key info = record page {
  slots = with_slot page.slots (slot_index key) info;
  initialized_map = bit_or page.initialized_map (shl 32 1 (slot_index key));
}

unfoldable pub get : TickSlabValue → ℕ → Option TickInfo
unfolding is_initialized
get page key = if is_initialized page key then some (page.slots (slot_index key)) else none

unfoldable pub remove_tick : TickSlabValue → ℕ → TickSlabValue
remove_tick page key = record page {
  initialized_map = bit_and page.initialized_map (2 ^ 32 - 1 - shl 32 1 (slot_index key));
}

-- The slot that a search found, with its tick.
abbrev pub at_slot : TickSlabValue → ℕ → Option (ℕ × TickInfo)
at_slot page slot = some (slot, page.slots slot)

pub next_slot : TickSlabValue → ℕ → Option (ℕ × TickInfo)
next_slot page key =
    let slot = slot_index key in
    let candidates = bit_and page.initialized_map (shl 32 (2 ^ 32 - 1) (slot + 1)) in
    if slot == 31
    then none
    else if candidates == 0
    then none
    else at_slot page (trailing_zeros 32 candidates)

pub prev_slot : TickSlabValue → ℕ → Option (ℕ × TickInfo)
prev_slot page key =
    let slot = slot_index key in
    let candidates = bit_and page.initialized_map (shl 32 1 slot - 1) in
    if slot == 0
    then none
    else if candidates == 0
    then none
    else at_slot page (31 - leading_zeros 32 candidates)

unfoldable pub first_slot : TickSlabValue → Option (ℕ × TickInfo)
first_slot page =
    if page.initialized_map == 0
    then none
    else at_slot page (trailing_zeros 32 page.initialized_map)

unfoldable pub last_slot : TickSlabValue → Option (ℕ × TickInfo)
last_slot page =
    if page.initialized_map == 0
    then none
    else at_slot page (31 - leading_zeros 32 page.initialized_map)

pub next_tick : TickSlabValue → ℕ → Option TickInfo
unfolding next_slot
next_tick page key = Option.map (λ r. r.1) (next_slot page key)

pub prev_tick : TickSlabValue → ℕ → Option TickInfo
unfolding prev_slot
prev_tick page key = Option.map (λ r. r.1) (prev_slot page key)

pub first_tick : TickSlabValue → Option TickInfo
unfolding first_slot
first_tick page = Option.map (λ r. r.1) (first_slot page)

pub last_tick : TickSlabValue → Option TickInfo
unfolding last_slot
last_tick page = Option.map (λ r. r.1) (last_slot page)

abbrev pub set_prev_idx : TickSlabValue → Option ℕ → TickSlabValue
set_prev_idx page prev_idx = record page { prev_idx = prev_idx }

abbrev pub set_next_idx : TickSlabValue → Option ℕ → TickSlabValue
set_next_idx page next_idx = record page { next_idx = next_idx }
