-- ===== src/BalanceDelta.antt =====
-- core/types/delta.rs, with the two signed amount deltas of core/math/sqrt_price.rs. An `i128` or an
-- `I256` is an integer; a negative amount is what the caller pays.
pub mod Change
pub mod Narrow
pub mod Principal
pub mod Settle
mod Tests
use Prim.Native.Nat.{bit_or}
use rm_uniswap.Prelude.{
  ℕ, suc, ◌+◌, ◌-◌, ◌*◌, ◌/◌, ◌%◌, ◌^◌, Bool, true, false, not, ltb, leb, ◌==◌, if◌then◌else◌, ◌&&◌,
  ◌||◌, Option, none, some,
}
use rm_uniswap.Prelude.Int.{ℤ, pos, negsuc, neg, abs, ltb_ℤ, leb_ℤ, eqb_ℤ, ◌+ℤ◌, ◌-ℤ◌}
use rm_uniswap.Error.{Result, ok, err, ◌>>=◌, ok_or, amount_overflow, i128_overflow}
use rm_uniswap.SmallRatio.{limb}
use rm_uniswap.SqrtPriceMath.{get_amount0_delta, get_amount1_delta}
use rm_uniswap.Word.{◌>>>◌, shl}

pub get_amount0_delta_signed : ℕ → ℕ → ℤ → Result ℤ
get_amount0_delta_signed a b liquidity =
    if ltb_ℤ liquidity (pos 0)
    then (get_amount0_delta a b (abs liquidity) false >>= λ r. ok (pos r.0))
    else (get_amount0_delta a b (abs liquidity) true >>= λ r. ok (neg (pos r.0)))

pub get_amount1_delta_signed : ℕ → ℕ → ℤ → Result ℤ
get_amount1_delta_signed a b liquidity =
    if ltb_ℤ liquidity (pos 0)
    then (get_amount1_delta a b (abs liquidity) false >>= λ r. ok (pos r.0))
    else (get_amount1_delta a b (abs liquidity) true >>= λ r. ok (neg (pos r.0)))

-- `as i128` of a `u128`.
abbrev pub as_i128 : ℕ → ℤ
as_i128 x = if ltb x (2 ^ 127) then pos x else negsuc (2 ^ 128 - 1 - x)

-- `i128::wrapping_neg`: the least value stays.
abbrev pub wrapping_neg_i128 : ℤ → ℤ
wrapping_neg_i128 z = if eqb_ℤ z (negsuc (2 ^ 127 - 1)) then z else neg z

unfoldable pub u256_to_i128_positive : ℕ → Result ℤ
u256_to_i128_positive amount =
    let lo = limb 0 amount in
    let hi = limb 1 amount in
    if not (bit_or (limb 2 amount) (limb 3 amount) == 0) || not ((hi >>> 63) == 0)
    then err amount_overflow
    else ok (as_i128 (bit_or (shl 128 hi 64) lo))

pub u256_to_i128_negative : ℕ → Result ℤ
u256_to_i128_negative amount =
    let lo = limb 0 amount in
    let hi = limb 1 amount in
    let limit_hi = shl 64 1 63 in
    let magnitude = bit_or (shl 128 hi 64) lo in
    if not (bit_or (limb 2 amount) (limb 3 amount) == 0)
      || ltb limit_hi hi
      || ((hi == limit_hi) && not (lo == 0))
    then err amount_overflow
    else ok (wrapping_neg_i128 (as_i128 magnitude))

unfoldable pub liquidity_amount_to_i128 : ℕ → Bool → Result ℤ
liquidity_amount_to_i128 amount positive =
    if positive then u256_to_i128_negative amount else u256_to_i128_positive amount

-- `.map(|(amount, _)| amount).map_err(|_| AmountOverflow)?`, then the conversion.
abbrev pub convert_amount : Bool → Result (ℕ × ℕ) → Result ℤ
convert_amount positive (err e) = err amount_overflow
convert_amount positive (ok r) = liquidity_amount_to_i128 r.0 positive

pub amount0_delta_for_liquidity_change : ℕ → ℕ → ℕ → Bool → Result ℤ
amount0_delta_for_liquidity_change a b liquidity_delta positive =
    convert_amount positive (get_amount0_delta a b liquidity_delta positive)

unfoldable pub amount1_delta_for_liquidity_change : ℕ → ℕ → ℕ → Bool → Result ℤ
amount1_delta_for_liquidity_change a b liquidity_delta positive =
    convert_amount positive (get_amount1_delta a b liquidity_delta positive)

pub record BalanceDelta : Type 0 where
  pub amount0 : ℤ
  pub amount1 : ℤ

unfoldable pub from_u256 : ℕ → ℕ → Result BalanceDelta
from_u256 amount0 amount1 = do
  a0 ← u256_to_i128_positive amount0
  a1 ← u256_to_i128_positive amount1
  ok (record { amount0 = a0; amount1 = a1 })

unfoldable pub from_liquidity_principal : ℤ → ℤ → ℤ → ℕ → ℕ → ℕ → ℤ → Result BalanceDelta
from_liquidity_principal tick_current tick_lower tick_upper current lower upper liquidity_delta =
    let positive = leb_ℤ (pos 0) liquidity_delta in
    let liquidity = abs liquidity_delta in
    if ltb_ℤ tick_current tick_lower
    then (amount0_delta_for_liquidity_change lower upper liquidity positive >>= λ a0.
        ok (record { amount0 = a0; amount1 = pos 0 }))
    else if ltb_ℤ tick_current tick_upper
    then (amount0_delta_for_liquidity_change current upper liquidity positive >>= λ a0.
        amount1_delta_for_liquidity_change lower current liquidity positive >>= λ a1.
        ok (record { amount0 = a0; amount1 = a1 }))
    else (amount1_delta_for_liquidity_change lower upper liquidity positive >>= λ a1.
        ok (record { amount0 = pos 0; amount1 = a1 }))

abbrev pub amount_out : BalanceDelta → Bool → ℕ
amount_out d zero_for_one =
    let raw = if zero_for_one then d.amount1 else d.amount0 in
    if ltb_ℤ (pos 0) raw then abs raw else 0

abbrev pub amount_in : BalanceDelta → Bool → ℕ
amount_in d zero_for_one =
    let raw = if zero_for_one then d.amount0 else d.amount1 in
    if ltb_ℤ raw (pos 0) then abs raw else 0

-- `i128::checked_add` and `checked_sub` on the exact sum or difference.
abbrev pub fit_i128 : ℤ → Option ℤ
fit_i128 z = if leb_ℤ (negsuc (2 ^ 127 - 1)) z && ltb_ℤ z (pos (2 ^ 127)) then some z else none

pub checked_add : BalanceDelta → BalanceDelta → Result BalanceDelta
checked_add d other = do
  a0 ← ok_or (fit_i128 (d.amount0 +ℤ other.amount0)) i128_overflow
  a1 ← ok_or (fit_i128 (d.amount1 +ℤ other.amount1)) i128_overflow
  ok (record { amount0 = a0; amount1 = a1 })

pub checked_sub : BalanceDelta → BalanceDelta → Result BalanceDelta
checked_sub d other = do
  a0 ← ok_or (fit_i128 (d.amount0 -ℤ other.amount0)) i128_overflow
  a1 ← ok_or (fit_i128 (d.amount1 -ℤ other.amount1)) i128_overflow
  ok (record { amount0 = a0; amount1 = a1 })
