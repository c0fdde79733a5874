-- ===== src/SqrtPrice.antt =====
-- core/types/sqrt_price.rs, with the nonzero newtypes of core/types/nonzero.rs. A `SqrtPriceX96` is
-- the number inside it; that it is in range is the predicate `IsPrice`.
use rm_uniswap.Prelude.{
  ℕ, ◌+◌, ◌-◌, ◌%◌, ◌^◌, ◌≤◌, ◌<◌, ◌≡◌, arith, Bool, ltb, leb, ◌==◌, if◌then◌else◌, ◌&&◌, Option,
  none, some, lt_or_ge, inl, inr, le→leb, le→ltb, lt→ltb,
}
use rm_uniswap.Word.{bit_len}
use rm_uniswap.Word.Count.{bit_len-le, lt_pow_of_bit_len-le}

-- `SqrtPriceX96::MIN` and `SqrtPriceX96::MAX`.
abbrev pub min_sqrt_price : ℕ
min_sqrt_price = 4295128739

abbrev pub max_sqrt_price : ℕ
max_sqrt_price = 1461446703485210103287273052203988822378723970342

abbrev pub is_valid : ℕ → Bool
is_valid p = leb min_sqrt_price p && leb p max_sqrt_price

-- `SqrtPriceX96::new`.
pub new_price : ℕ → Option ℕ
new_price p = if is_valid p then some p else none

-- `SqrtPriceX96::from_u256`.
pub from_u256 : ℕ → Option ℕ
from_u256 v = if ltb 160 (bit_len 256 v) then none else new_price (v % 2 ^ 160)

-- `SqrtPriceX96::extreme_price_limit`, whose `expect` never fails on these constants.
abbrev pub extreme_price_limit : Bool → ℕ
extreme_price_limit zero_for_one = if zero_for_one then min_sqrt_price + 1 else max_sqrt_price - 1

-- `SqrtPriceX96::sort`: the smaller price first.
abbrev pub sort : ℕ → ℕ → ℕ × ℕ
sort a b = if ltb a b then (a, b) else (b, a)

-- `NonZeroU256::new`.
abbrev pub new_non_zero : ℕ → Option ℕ
new_non_zero v = if v == 0 then none else some v

-- The range of a price that `new` accepts.
pub record IsPrice (p : ℕ) : Type 0 where
  pub min_le : 4295128739 ≤ p
  pub le_max : p ≤ 1461446703485210103287273052203988822378723970342

pub from_u256-some : (v : ℕ) → IsPrice v → from_u256 v ≡ some v
unfolding from_u256 new_price
from_u256-some v h =
    let small : v < 2 ^ 160 = omega arith in
    let kept : v % 2 ^ 160 ≡ v = omega arith in
    rw (
      le→ltb 160 (bit_len 256 v) (bit_len-le 256 v 160 small),
      kept,
      le→leb 4295128739 v h.min_le,
      le→leb v 1461446703485210103287273052203988822378723970342 h.le_max,
    )

-- Whatever `new` accepts is in range.
pub new_price-IsPrice : (v : ℕ) {p : ℕ} → new_price v ≡ some p → (p ≡ v) × IsPrice p
unfolding new_price
new_price-IsPrice v e = ground arith

-- Whatever `from_u256` accepts is the word it was given, and a price in range.
pub from_u256-IsPrice : (v : ℕ) {p : ℕ} → v < 2 ^ 256 → from_u256 v ≡ some p → (p ≡ v) × IsPrice p
unfolding from_u256
from_u256-IsPrice v h e = elim (lt_or_ge 160 (bit_len 256 v)) [
  | inl wide ↦ cc (rw (lt→ltb 160 (bit_len 256 v) wide) at e)
  | inr narrow ↦
      let fits = lt_pow_of_bit_len-le 256 v 160 h narrow in
      let kept : v % 2 ^ 160 ≡ v = omega arith in
      new_price-IsPrice v (rw (le→ltb 160 (bit_len 256 v) narrow, kept) at e)
]
