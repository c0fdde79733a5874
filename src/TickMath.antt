-- ===== src/TickMath.antt =====
-- core/math/tick.rs: the price of a tick and the tick of a price. A tick is an integer; the products
-- of 64-bit halves fit a `u128`, so they are written without a wrap-around.
pub mod Products
pub mod Ladder
pub mod Range
pub mod Inverse
mod Tests
use Prim.Native.Nat.{bit_and, bit_or}
use mathlib.Core.List.{List, [], ◌∷◌}
use rm_uniswap.Prelude.{
  ℕ, zero, suc, ◌+◌, ◌-◌, ◌*◌, ◌/◌, ◌%◌, ◌^◌, Bool, not, ltb, leb, ◌==◌, if◌then◌else◌,
}
use rm_uniswap.Prelude.Int.{ℤ, pos, negsuc, ◌+ℤ◌, ◌-ℤ◌, neg, abs, ltb_ℤ, eqb_ℤ}
use rm_uniswap.Word.{◌>>>◌, shl, trailing_zeros, leading_zeros, wrapping_neg}

-- `TICK_RATIOS`.
abbrev pub tick_ratios : List ℕ
tick_ratios =
    0xfffcb933bd6fad37aa2d162d1a594001 ∷ 0xfff97272373d413259a46990580e213a
    ∷ 0xfff2e50f5f656932ef12357cf3c7fdcc ∷ 0xffe5caca7e10e4e61c3624eaa0941cd0
    ∷ 0xffcb9843d60f6159c9db58835c926644 ∷ 0xff973b41fa98c081472e6896dfb254c0
    ∷ 0xff2ea16466c96a3843ec78b326b52861 ∷ 0xfe5dee046a99a2a811c461f1969c3053
    ∷ 0xfcbe86c7900a88aedcffc83b479aa3a4 ∷ 0xf987a7253ac413176f2b074cf7815e54
    ∷ 0xf3392b0822b70005940c7a398e4b70f3 ∷ 0xe7159475a2c29b7443b29c7fa6e889d9
    ∷ 0xd097f3bdfd2022b8845ad8f792aa5825 ∷ 0xa9f746462d870fdf8a65dc1f90e061e5
    ∷ 0x70d869a156d2a1b890bb3df62baf32f7 ∷ 0x31be135f97d08fd981231505542fcfa6
    ∷ 0x09aa508b5b7a84e1c677de54f3e99bc9 ∷ 0x005d6af8dedb81196699c329225ee604
    ∷ 0x0002216e584f5fa1ea926041bedfe98 ∷ 0x00000000048a170391f7dc42444e8fa2 ∷ []

-- An element of the table; the code never reads outside it.
abbrev pub entry : List ℕ → ℕ → ℕ
entry [] i = 0
entry (r ∷ rs) zero = r
entry (r ∷ rs) (suc i) = entry rs i

abbrev pub tick_ratio : ℕ → ℕ
tick_ratio i = entry tick_ratios i

unfoldable pub mul_hi_u128 : ℕ → ℕ → ℕ
mul_hi_u128 a b =
    let lo = 2 ^ 64 - 1 in
    let al = bit_and a lo in
    let ah = a >>> 64 in
    let bl = bit_and b lo in
    let bh = b >>> 64 in
    let ll = al * bl in
    let lh = al * bh in
    let hl = ah * bl in
    let hh = ah * bh in
    let mid = (ll >>> 64) + bit_and lh lo + bit_and hl lo in
    hh + (lh >>> 64) + (hl >>> 64) + (mid >>> 64)

-- The high and the low half of a product.
pub widening_mul_u128 : ℕ → ℕ → ℕ × ℕ
widening_mul_u128 a b =
    let lo = 2 ^ 64 - 1 in
    let al = bit_and a lo in
    let ah = a >>> 64 in
    let bl = bit_and b lo in
    let bh = b >>> 64 in
    let ll = al * bl in
    let lh = al * bh in
    let hl = ah * bl in
    let hh = ah * bh in
    let mid = (ll >>> 64) + bit_and lh lo + bit_and hl lo in
    (
      hh + (lh >>> 64) + (hl >>> 64) + (mid >>> 64),
      bit_or (shl 128 (bit_and mid lo) 64) (bit_and ll lo),
    )

pub smul_i128_u128 : ℤ → ℕ → ℤ × ℕ
smul_i128_u128 a b =
    let (hi, lo) = widening_mul_u128 (abs a) b in
    if ltb_ℤ a (pos 0)
    then (if lo == 0 then (neg (pos hi), 0) else (neg (pos hi) -ℤ pos 1, wrapping_neg 128 lo))
    else (pos hi, lo)

-- `while bits != 0`, on fuel: every turn clears one of the bits.
unfoldable pub multiply_bits : ℕ → ℕ → ℕ → ℕ
multiply_bits zero bits ratio = ratio
multiply_bits (suc fuel) bits ratio =
    let i = trailing_zeros 32 bits in
    let rest = multiply_bits fuel (bit_and bits (bits - 1)) (mul_hi_u128 ratio (tick_ratio i)) in
    if bits == 0 then ratio else rest

-- The product of the table's ratios for the bits of `abs_tick`.
unfoldable pub ratio_of : ℕ → ℕ
ratio_of abs_tick =
    multiply_bits 20 (bit_and abs_tick (abs_tick - 1)) (tick_ratio (trailing_zeros 32 abs_tick))

unfoldable pub get_sqrt_price_at_tick : ℤ → ℕ
get_sqrt_price_at_tick tick =
    let abs_tick = abs tick in
    let ratio = ratio_of abs_tick in
    if abs_tick == 0
    then 2 ^ 96
    else if ltb_ℤ (pos 0) tick
    then (2 ^ 256 - 1) / ratio + (2 ^ 32 - 1) >>> 32
    else (ratio >>> 32) + (if not (bit_and ratio (2 ^ 32 - 1) == 0) then 1 else 0)

-- `TickIndex::MAX`; `TickIndex::MIN` is its negation.
abbrev pub max_tick : ℕ
max_tick = 887272

pub clamp_i64_to_tick_index : ℤ → ℤ
clamp_i64_to_tick_index tick =
    if ltb_ℤ tick (neg (pos max_tick))
    then neg (pos max_tick)
    else if ltb_ℤ (pos max_tick) tick
    then pos max_tick
    else tick

-- `for i in (50..=63).rev()`: `turns` are left, and the bit is `49 + turns`. The bit of `log2` is clear
-- before it is set, so `|=` is written as an addition: the two agree on a start whose low 64 bits are
-- clear, as that of the code, since every turn sets another of these bits.
pub refine_log2 : ℕ → ℕ → ℤ → ℤ
refine_log2 zero r log2 = log2
refine_log2 (suc turns) r log2 =
    let (hi, lo) = widening_mul_u128 r r in
    let f = hi >>> 127 in
    refine_log2 turns (if not (f == 0) then hi else bit_or (shl 128 hi 1) (lo >>> 127))
      (log2 +ℤ pos (f * 2 ^ (50 + turns)))

-- The normalized ratio, in 128 bits.
pub normalize : ℕ → ℕ → ℕ
normalize ratio msb =
    (if leb 128 msb then ratio >>> (msb - 127) else shl 256 ratio (127 - msb)) % 2 ^ 128

-- The two candidates, `tick_low` and `tick_high`.
pub tick_candidates : ℕ → ℤ × ℤ
tick_candidates sqrt_price =
    let ratio = shl 256 sqrt_price 32 in
    let msb = 255 - leading_zeros 256 ratio in
    let log2 = refine_log2 14 (normalize ratio msb) ((pos (msb * 2 ^ 64)) -ℤ pos (128 * 2 ^ 64)) in
    let (log_hi, log_lo) = smul_i128_u128 log2 255738958999603826347141 in
    let borrow = if ltb log_lo 3402992956809132418596140100660247210 then 1 else 0 in
    let carry = if leb (2 ^ 128) (log_lo + 291339464771989622907027621153398088495) then 1 else 0 in
    (clamp_i64_to_tick_index (log_hi -ℤ pos borrow), clamp_i64_to_tick_index (log_hi +ℤ pos carry))

pub get_tick_at_sqrt_price : ℕ → ℤ
get_tick_at_sqrt_price sqrt_price =
    let (tick_low, tick_high) = tick_candidates sqrt_price in
    if eqb_ℤ tick_low tick_high
    then tick_low
    else if leb (get_sqrt_price_at_tick tick_high) sqrt_price
    then tick_high
    else tick_low
