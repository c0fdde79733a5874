-- ===== src/FullMath.antt =====
-- core/math/full.rs: `floor(a * b / d)` and `ceil(a * b / d)` with a 512-bit intermediate product.
pub mod Inverse
pub mod PowerOfTwo
pub mod Core
pub mod Exact
pub mod Q96
pub mod Q96Ceil
mod Tests
use Prim.Native.Nat.{bit_or, bit_and, bit_xor}
use rm_uniswap.Prelude.{
  ℕ, zero, suc, ◌+◌, ◌-◌, ◌*◌, ◌/◌, ◌%◌, ◌^◌, Bool, not, ltb, leb, ◌==◌, if◌then◌else◌, ◌&&◌,
}
use rm_uniswap.Error.{Result, ok, err, zero_denominator, overflow, ok_or, ◌>>=◌}
use rm_uniswap.Word.{
  shl, ◌>>>◌, wrapping_mul, wrapping_sub, wrapping_neg, checked_add, trailing_zeros, u256_mod,
}

-- `full_product`: the low and the high word of the product, and the product.
pub full_product : ℕ → ℕ → ℕ × ℕ × ℕ
full_product a b = (a * b % 2 ^ 256, a * b / 2 ^ 256, a * b)

-- `narrow` of a 512-bit number.
pub narrow : ℕ → Result ℕ
narrow v = if v / 2 ^ 256 == 0 then ok (v % 2 ^ 256) else err overflow

-- `newton_step!`.
pub newton_step : ℕ → ℕ → ℕ
newton_step d inv = wrapping_mul 256 inv (wrapping_sub 256 2 (wrapping_mul 256 d inv))

pub mod_inv_u256 : ℕ → ℕ
unfolding newton_step
mod_inv_u256 d =
    let seed = bit_xor (wrapping_mul 256 3 d) 2 in
    newton_step d
      (newton_step d (newton_step d (newton_step d (newton_step d (newton_step d seed)))))

pub is_power_of_two : ℕ → Bool
is_power_of_two x = not (x == 0) && (bit_and x (x - 1) == 0)

-- `(prod0 >> shift) | (prod1 << (256 - shift))`, or the low word alone where nothing is shifted.
pub shift_product : ℕ → ℕ → ℕ → ℕ
shift_product prod0 prod1 shift =
    if shift == 0 then prod0 else bit_or (prod0 >>> shift) (shl 256 prod1 (256 - shift))

-- The quotient for a denominator that is no power of two: subtract the remainder, shift the twos of
-- the denominator out, and multiply by the inverse of what is left.
pub divide_by_inverse : ℕ → ℕ → ℕ → ℕ → ℕ
divide_by_inverse prod0 prod1 denominator remainder =
    let low = wrapping_sub 256 prod0 remainder in
    let high = if ltb prod0 remainder then prod1 - 1 else prod1 in
    let twos = bit_and denominator (wrapping_neg 256 denominator) in
    let shift = trailing_zeros 256 twos in
    let odd_denom = denominator >>> shift in
    wrapping_mul 256 (shift_product low high shift) (mod_inv_u256 odd_denom)

-- The quotient and whether the division left a remainder.
pub mul_div_core : ℕ → ℕ → ℕ → ℕ → Result (ℕ × Bool)
mul_div_core prod0 prod1 denominator product =
    if leb denominator prod1
    then err overflow
    else if is_power_of_two denominator
    then ok (
      shift_product prod0 prod1 (trailing_zeros 256 denominator),
      not (bit_and prod0 (denominator - 1) == 0),
    )
    else (let remainder = product % denominator in
        ok (divide_by_inverse prod0 prod1 denominator remainder, not (remainder == 0)))

pub round_up_if_remainder : ℕ → Bool → Result ℕ
round_up_if_remainder value has_remainder =
    if has_remainder then ok_or (checked_add 256 value 1) overflow else ok value

-- `overflowing_mul` gives the low word, and whether the product left it.
pub mul_div : ℕ → ℕ → ℕ → Result ℕ
unfolding full_product
mul_div a b denominator =
    let prod0 = wrapping_mul 256 a b in
    let overflows = leb (2 ^ 256) (a * b) in
    if denominator == 0
    then err zero_denominator
    else if denominator == 1
    then (if overflows then err overflow else ok prod0)
    else if not overflows
    then ok (prod0 / denominator)
    else (let (low, high, product) = full_product a b in
        mul_div_core low high denominator product >>= λ r. ok r.0)

pub mul_div_rounding_up : ℕ → ℕ → ℕ → Result ℕ
unfolding full_product
mul_div_rounding_up a b denominator =
    let prod0 = wrapping_mul 256 a b in
    let overflows = leb (2 ^ 256) (a * b) in
    if denominator == 0
    then err zero_denominator
    else if denominator == 1
    then (if overflows then err overflow else ok prod0)
    else if not overflows
    then round_up_if_remainder (prod0 / denominator) (not (prod0 % denominator == 0))
    else (let (low, high, product) = full_product a b in
        mul_div_core low high denominator product >>= λ r. round_up_if_remainder r.0 r.1)

-- `floor(amount * 2^96 / denominator)`.
pub mul_q96_div : ℕ → ℕ → Result ℕ
mul_q96_div amount denominator =
    let shift = trailing_zeros 256 denominator in
    let numerator = amount * 2 ^ 96 in
    if denominator == 0
    then err zero_denominator
    else if amount == 0
    then ok 0
    else if denominator == 1
    then (if ltb (2 ^ 256 - 1 >>> 96) amount then err overflow else ok (shl 256 amount 96))
    else if is_power_of_two denominator
    then (if leb shift 96
        then (if 96 - shift == 0
            then ok amount
            else if ltb (2 ^ 256 - 1 >>> (96 - shift)) amount
            then err overflow
            else ok (shl 256 amount (96 - shift)))
        else ok (amount >>> (shift - 96)))
    else if leb amount (2 ^ 256 - 1 >>> 96)
    then ok (shl 256 amount 96 / denominator)
    else if leb denominator (amount >>> 160)
    then err overflow
    else narrow (numerator / denominator)

-- `ceil(amount * 2^96 / denominator)`.
pub mul_q96_div_rounding_up : ℕ → ℕ → Result ℕ
mul_q96_div_rounding_up amount denominator =
    let shift = trailing_zeros 256 denominator in
    let numerator = amount * 2 ^ 96 in
    if denominator == 0
    then err zero_denominator
    else if amount == 0
    then ok 0
    else if denominator == 1
    then (if ltb (2 ^ 256 - 1 >>> 96) amount then err overflow else ok (shl 256 amount 96))
    else if is_power_of_two denominator
    then (if leb shift 96
        then (if 96 - shift == 0
            then ok amount
            else if ltb (2 ^ 256 - 1 >>> (96 - shift)) amount
            then err overflow
            else ok (shl 256 amount (96 - shift)))
        else round_up_if_remainder (amount >>> (shift - 96))
            (not (bit_and amount (shl 256 1 (shift - 96) - 1) == 0)))
    else if leb amount (2 ^ 256 - 1 >>> 96)
    then round_up_if_remainder (shl 256 amount 96 / denominator)
        (not (shl 256 amount 96 % denominator == 0))
    else if leb denominator (amount >>> 160)
    then err overflow
    else (narrow (numerator / denominator) >>= λ quotient.
        round_up_if_remainder quotient (not (numerator % denominator == 0)))
