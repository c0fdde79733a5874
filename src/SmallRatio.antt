-- ===== src/SmallRatio.antt =====
-- core/math/small_ratio.rs: exact `U256 * u32 / u32`, by long division over 64-bit limbs.
pub mod Laws
pub mod Exact
pub mod Tests
use Prim.Native.Nat.{bit_or}
use rm_uniswap.Prelude.{ℕ, ◌+◌, ◌-◌, ◌*◌, ◌/◌, ◌%◌, ◌^◌, ltb, leb, ◌==◌, if◌then◌else◌, ◌||◌}
use rm_uniswap.Error.{Result, ok, err, zero_denominator, overflow, ok_or, ◌>>=◌}
use rm_uniswap.Word.{shl, ◌>>>◌, checked_add}

-- `v as u64`.
abbrev pub u64 : ℕ → ℕ
u64 v = v % 2 ^ 64

-- `v as u32`.
abbrev pub u32 : ℕ → ℕ
u32 v = v % 2 ^ 32

-- `U256::into_limbs`, limb by limb, and `U256::from_limbs`.
abbrev pub limb : ℕ → ℕ → ℕ
limb i x = x / 2 ^ (64 * i) % 2 ^ 64

abbrev pub from_limbs : ℕ → ℕ → ℕ → ℕ → ℕ
from_limbs a b c d = a + b * 2 ^ 64 + c * 2 ^ 128 + d * 2 ^ 192

pub div_step_u32 : ℕ → ℕ → ℕ → ℕ × ℕ
div_step_u32 remainder limb denominator =
    let current = bit_or (shl 128 remainder 64) limb in
    let quotient = current / denominator in (u64 quotient, u64 (current - quotient * denominator))

pub divide_leading_u32 : ℕ → ℕ → ℕ × ℕ
divide_leading_u32 leading denominator =
    if ltb leading denominator
    then (0, leading)
    else (leading / denominator, leading - leading / denominator * denominator)

-- Every path answers with the quotient and the remainder.
pub mul_div_low64_u32 : ℕ → ℕ → ℕ → ℕ × ℕ
mul_div_low64_u32 a0 numerator denominator =
    let product = a0 * numerator in
    let (q1, r1) = divide_leading_u32 (u64 (product >>> 64)) denominator in
    let (q0, r0) = div_step_u32 r1 (u64 product) denominator in (from_limbs q0 q1 0 0, u32 r0)

pub mul_div_low128_u32 : ℕ → ℕ → ℕ → ℕ → ℕ × ℕ
mul_div_low128_u32 a0 a1 numerator denominator =
    let product0 = a0 * numerator in
    let product1 = a1 * numerator + (product0 >>> 64) in
    let (q2, r2) = divide_leading_u32 (u64 (product1 >>> 64)) denominator in
    let (q1, r1) = div_step_u32 r2 (u64 product1) denominator in
    let (q0, r0) = div_step_u32 r1 (u64 product0) denominator in (from_limbs q0 q1 q2 0, u32 r0)

pub mul_div_full_u32 : ℕ → ℕ → ℕ → Result (ℕ × ℕ)
mul_div_full_u32 amount numerator denominator =
    let product0 = limb 0 amount * numerator in
    let product1 = limb 1 amount * numerator + (product0 >>> 64) in
    let product2 = limb 2 amount * numerator + (product1 >>> 64) in
    let product3 = limb 3 amount * numerator + (product2 >>> 64) in
    let p4 = u64 (product3 >>> 64) in
    let divided : Result (ℕ × ℕ) =
      let (q3, r3) = div_step_u32 p4 (u64 product3) denominator in
      let (q2, r2) = div_step_u32 r3 (u64 product2) denominator in
      let (q1, r1) = div_step_u32 r2 (u64 product1) denominator in
      let (q0, r0) = div_step_u32 r1 (u64 product0) denominator in
      ok (from_limbs q0 q1 q2 q3, u32 r0) in
    if leb denominator p4 then err overflow else divided

pub mul_div_u32_div_rem : ℕ → ℕ → ℕ → Result (ℕ × ℕ)
mul_div_u32_div_rem amount numerator denominator =
    let a0 = limb 0 amount in
    let a1 = limb 1 amount in
    let a2 = limb 2 amount in
    let a3 = limb 3 amount in
    if denominator == 0
    then err zero_denominator
    else if (amount == 0) || (numerator == 0)
    then ok (0, 0)
    else if numerator == denominator
    then ok (amount, 0)
    else if bit_or (bit_or a1 a2) a3 == 0
    then ok (mul_div_low64_u32 a0 numerator denominator)
    else if bit_or a2 a3 == 0
    then ok (mul_div_low128_u32 a0 a1 numerator denominator)
    else mul_div_full_u32 amount numerator denominator

pub mul_div_u32_floor : ℕ → ℕ → ℕ → Result ℕ
mul_div_u32_floor amount numerator denominator = do
  (quotient, _) ← mul_div_u32_div_rem amount numerator denominator
  ok quotient

pub mul_div_u32_ceil : ℕ → ℕ → ℕ → Result ℕ
mul_div_u32_ceil amount numerator denominator = do
  (quotient, remainder) ← mul_div_u32_div_rem amount numerator denominator
  if remainder == 0 then ok quotient else ok_or (checked_add 256 quotient 1) overflow
