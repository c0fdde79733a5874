-- ===== src/BalanceDelta/Change.antt =====
-- About `amount0_delta_for_liquidity_change` and its token1 twin: the exact amount and its limits.
use rm_uniswap.Prelude.{
  ℕ, ◌*◌, ◌^◌, ◌≤◌, ◌<◌, ◌≡◌, arith, true, false, Bool, ltb, leb, if◌then◌else◌, mul_le,
}
use rm_uniswap.Prelude.Int.{ℤ, pos, neg}
use rm_uniswap.Error.{Result, ok, err, amount_overflow}
use rm_uniswap.BalanceDelta.{
  amount0_delta_for_liquidity_change, amount1_delta_for_liquidity_change, liquidity_amount_to_i128,
}
use rm_uniswap.BalanceDelta.Narrow.{u256_to_i128_positive_lem, u256_to_i128_negative_lem}
use rm_uniswap.SqrtPrice.{IsPrice}
use rm_uniswap.SqrtPriceMath.Amounts.{
  rounded, rounded_le, distance, get_amount0_delta_lem, get_amount1_delta_lem,
}

-- What a change moves: a deposit owes the amount, a withdrawal is due it, each where an `i128` holds it.
abbrev pub signed_amount : Bool → ℕ → Result ℤ
signed_amount true x = if leb x (2 ^ 127) then ok (neg (pos x)) else err amount_overflow
signed_amount false x = if ltb x (2 ^ 127) then ok (pos x) else err amount_overflow

pub to_i128_lem :
    (up : Bool) (x : ℕ) → x < 2 ^ 256 → liquidity_amount_to_i128 x up ≡ signed_amount up x
unfolding liquidity_amount_to_i128
to_i128_lem true x h = u256_to_i128_negative_lem x h
to_i128_lem false x h = u256_to_i128_positive_lem x h

module _ (a b l : ℕ) (ha : IsPrice a) (hb : IsPrice b) (hl : l < 2 ^ 128) where
  distance_le : (distance a b ≤ a * b) × (distance a b < 2 ^ 160)
  distance_le = (
    omega (
      arith,
      mul_le a 1 a b (omega arith) (omega arith),
      mul_le 1 b a b (omega arith) (omega arith),
    ),
    omega arith,
  )

  pub small0 : (up : Bool) → rounded up (l * distance a b * 2 ^ 96) (a * b) ≤ 2 ^ 224
  small0 up =
      rounded_le up (l * distance a b * 2 ^ 96) (a * b) (2 ^ 224)
        (omega (arith, mul_le 1 1 a b (omega arith) (omega arith)))
        (omega (arith, mul_le l (distance a b) (2 ^ 128) (a * b) (omega arith) distance_le.0))

  pub small1 : (up : Bool) → rounded up (l * distance a b) (2 ^ 96) ≤ 2 ^ 224
  small1 up = rounded_le up (l * distance a b) (2 ^ 96) (2 ^ 224) (omega arith) (
      omega (
        arith,
        mul_le l (distance a b) (2 ^ 128) (2 ^ 160) (omega arith) (omega (arith, distance_le.1)),
      ))

  -- For two prices in range and a 128-bit liquidity, the token0 change is the exact amount over `a *
  -- b` and the token1 change the exact amount over 2^96: rounded up and negated for a deposit, an
  -- overflow where that is above 2^127; rounded down for a withdrawal, an overflow where that is
  -- 2^127 or more.
  pub liquidity_change_lem :
      (up : Bool)
      → (amount0_delta_for_liquidity_change a b l up
          ≡ signed_amount up (rounded up (l * distance a b * 2 ^ 96) (a * b)))
        × (amount1_delta_for_liquidity_change a b l up
            ≡ signed_amount up (rounded up (l * distance a b) (2 ^ 96)))
  unfolding amount0_delta_for_liquidity_change amount1_delta_for_liquidity_change
  liquidity_change_lem up = (
    rw (get_amount0_delta_lem a b l up ha hb hl) (to_i128_lem up _ (omega (arith, small0 up))),
    rw (get_amount1_delta_lem a b l up ha hb hl) (to_i128_lem up _ (omega (arith, small1 up))),
  )
