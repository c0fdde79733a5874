-- ===== src/TickKey.antt =====
-- core/types/tick.rs, tick_spacing.rs and tick_slab_indexer.rs: validated ticks and spacings, and the
-- key under which the tick store holds a tick. A key is the number inside `TickSlabIndexer`.
pub mod Encoding
pub mod Key
mod Tests
use Prim.Native.Nat.{bit_and, bit_or, bit_xor}
use rm_uniswap.Prelude.{
  ℕ, ◌+◌, ◌-◌, ◌*◌, ◌/◌, ◌%◌, ◌^◌, Bool, ltb, leb, ◌==◌, if◌then◌else◌, ◌||◌, Option, none, some,
}
use rm_uniswap.Prelude.Int.{ℤ, pos, negsuc, neg, abs, ltb_ℤ, ◌-ℤ◌, pos_part, neg_part}
use rm_uniswap.TickMath.{max_tick}
use rm_uniswap.Word.{◌>>>◌, shl, leading_zeros}

-- `TickIndex::MAX_BITS`.
abbrev pub max_bits : ℕ
max_bits = 21

-- `TickIndex::new`.
pub new_tick : ℤ → Option ℤ
new_tick index =
    if ltb_ℤ index (neg (pos max_tick)) || ltb_ℤ (pos max_tick) index then none else some index

-- `TickIndex::for_spacing`: a remainder is zero on both sides of zero alike.
abbrev pub for_spacing : ℤ → ℕ → Bool
for_spacing tick tick_spacing = abs tick % tick_spacing == 0

-- `TickSpacing::new`, of an `i16`.
pub new_spacing : ℤ → Option ℕ
new_spacing spacing = if ltb_ℤ spacing (pos 1) then none else some (pos_part spacing)

-- `i32::div_euclid` by a positive number.
abbrev pub div_euclid : ℤ → ℕ → ℤ
div_euclid (pos n) d = pos (n / d)
div_euclid (negsuc n) d = negsuc (n / d)

-- `TickSpacing::max_liquidity_per_tick`.
pub max_liquidity_per_tick : ℕ → ℕ
max_liquidity_per_tick tick_spacing =
    let min_compressed = div_euclid (neg (pos max_tick)) tick_spacing in
    let max_compressed = div_euclid (pos max_tick) tick_spacing in
    let num_ticks = pos_part max_compressed + neg_part min_compressed + 1 in
    (2 ^ 128 - 1) / num_ticks

-- `as u32` and `as i32`.
abbrev pub as_u32 : ℤ → ℕ
as_u32 (pos n) = n
as_u32 (negsuc n) = 2 ^ 32 - 1 - n

abbrev pub as_i32 : ℕ → ℤ
as_i32 x = if ltb x (2 ^ 31) then pos x else negsuc (2 ^ 32 - 1 - x)

-- The arithmetic shift of an `i32`.
abbrev pub shift_right : ℤ → ℕ → ℤ
shift_right (pos n) k = pos (n / 2 ^ k)
shift_right (negsuc n) k = negsuc (n / 2 ^ k)

-- The product of an `i32` and a spacing.
abbrev pub times : ℤ → ℕ → ℤ
times (pos n) d = pos (n * d)
times (negsuc n) d = neg (pos ((n + 1) * d))

-- The bits of a compressed tick.
abbrev pub key_bits : ℕ → ℕ
key_bits tick_spacing = max_bits - (31 - leading_zeros 32 tick_spacing)

-- The order-preserving encoding of a compressed tick in `bits` bits, and its inverse.
unfoldable pub encode : ℤ → ℕ → ℕ
encode compressed bits =
    let mask = 2 ^ 32 - 1 >>> (32 - bits) in
    let sign = shl 32 1 (bits - 1) in bit_xor (bit_and (as_u32 compressed) mask) sign

pub decode : ℕ → ℕ → ℤ
decode key bits =
    let sign = shl 32 1 (bits - 1) in
    let raw = bit_xor key sign in shift_right (as_i32 (shl 32 raw (32 - bits))) (32 - bits)

unfoldable pub from_tick : ℤ → ℕ → ℕ
from_tick tick tick_spacing = encode (div_euclid tick tick_spacing) (key_bits tick_spacing)

pub to_tick : ℕ → ℕ → ℤ
to_tick key tick_spacing = times (decode key (key_bits tick_spacing)) tick_spacing

unfoldable pub from_parts : ℕ → ℕ → ℕ
from_parts cache_index slot_index = bit_or (shl 32 cache_index 5) (bit_and slot_index 0x1F)

unfoldable pub slot_index : ℕ → ℕ
slot_index key = bit_and key 0x1F

unfoldable pub cache_index : ℕ → ℕ
cache_index key = bit_and (key >>> 5) 0xFFFF

-- `calculate_cache_cap`.
unfoldable pub calculate_cache_cap : ℕ → ℕ
calculate_cache_cap tick_spacing = cache_index (from_tick (pos max_tick) tick_spacing) + 1
