-- ===== src/Word.antt =====
-- Fixed-width unsigned words (`u32`, `u64`, `u128` and the `Uint<N>` of the source) as numbers below
-- a power of two, with the wrap-around written out. The children hold the laws of their bits.
pub mod Bits
pub mod Pow
pub mod Fields
pub mod Count
pub mod Digits
pub mod Table
use rm_uniswap.Prelude.{
  ℕ, zero, suc, ◌+◌, ◌-◌, ◌*◌, ◌/◌, ◌%◌, ◌^◌, Bool, Option, none, some, ltb, leb, ◌==◌,
  if◌then◌else◌,
}

-- 2^256, the modulus of `U256`; `U256::MAX` is one less.
abbrev pub u256_mod : ℕ
u256_mod = 2 ^ 256

abbrev pub u128_mod : ℕ
u128_mod = 2 ^ 128

abbrev pub u160_mod : ℕ
u160_mod = 2 ^ 160

abbrev pub u64_mod : ℕ
u64_mod = 2 ^ 64

abbrev pub u32_mod : ℕ
u32_mod = 2 ^ 32

-- `x >> k`.
infixl 60 ◌>>>◌
abbrev pub ◌>>>◌ : ℕ → ℕ → ℕ
x >>> k = x / 2 ^ k

-- `x << k` at width `w`: the bits that leave the word are lost.
abbrev pub shl : ℕ → ℕ → ℕ → ℕ
shl w x k = x * 2 ^ k % 2 ^ w

-- `wrapping_add`, `wrapping_mul`, `wrapping_sub` and `wrapping_neg` at width `w`, on words.
abbrev pub wrapping_add : ℕ → ℕ → ℕ → ℕ
wrapping_add w a b = (a + b) % 2 ^ w

abbrev pub wrapping_mul : ℕ → ℕ → ℕ → ℕ
wrapping_mul w a b = a * b % 2 ^ w

abbrev pub wrapping_sub : ℕ → ℕ → ℕ → ℕ
wrapping_sub w a b = (a + 2 ^ w - b) % 2 ^ w

abbrev pub wrapping_neg : ℕ → ℕ → ℕ
wrapping_neg w a = wrapping_sub w 0 a

-- `checked_add`, `checked_sub` and `checked_mul` at width `w`.
abbrev pub checked_add : ℕ → ℕ → ℕ → Option ℕ
checked_add w a b = if ltb (a + b) (2 ^ w) then some (a + b) else none

abbrev pub checked_sub : ℕ → ℕ → Option ℕ
checked_sub a b = if leb b a then some (a - b) else none

abbrev pub checked_mul : ℕ → ℕ → ℕ → Option ℕ
checked_mul w a b = if ltb (a * b) (2 ^ w) then some (a * b) else none

-- The number of binary digits of a word of width `w`.
unfoldable pub bit_len : ℕ → ℕ → ℕ
bit_len zero x = 0
bit_len (suc w) x = if x == 0 then 0 else suc (bit_len w (x / 2))

unfoldable pub leading_zeros : ℕ → ℕ → ℕ
unfolding bit_len
leading_zeros w x = w - bit_len w x

-- The number of low zero bits of a word of width `w`; `w` at zero.
unfoldable pub trailing_zeros : ℕ → ℕ → ℕ
trailing_zeros zero x = 0
trailing_zeros (suc w) x = if x % 2 == 1 then 0 else suc (trailing_zeros w (x / 2))
