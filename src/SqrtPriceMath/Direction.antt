-- ===== src/SqrtPriceMath/Direction.antt =====
-- About the prices that `get_next_sqrt_price_from_input` and `_from_output` return.
use native.Mathlib.Nat.{div-mul-le_self, lt-div-mul-add}
use rm_uniswap.Prelude.{
  ℕ, ◌+◌, ◌-◌, ◌*◌, ◌/◌, ◌^◌, ◌≤◌, ◌<◌, ◌≡◌, refl, ap, arith, inl, inr, true, false, lt_or_ge,
  lt→ltb, le→ltb, div_ceil, div_ceil_le, le_mul_div_ceil, mul_le, div_lt_of_lt_mul,
}
use rm_uniswap.Error.{ok}
use rm_uniswap.SqrtPrice.{IsPrice}
use rm_uniswap.SqrtPriceMath.{
  get_next_sqrt_price_from_amount0_rounding_up, get_next_sqrt_price_from_amount1_rounding_down,
  get_next_sqrt_price_from_input, get_next_sqrt_price_from_output,
}
use rm_uniswap.SqrtPriceMath.Next.{IsLiquidity, IsAmount, added0-le}
use rm_uniswap.SqrtPriceMath.Yields.{
  price_after_token0_in, amount0_add-Yields, amount0_sub-Yields, amount1_add-Yields,
  amount1_sub-Yields,
}

-- What the range from `lo` up to `hi` holds of token0, times `lo * hi`, is `token0_span l lo hi`.
abbrev pub token0_span : ℕ → ℕ → ℕ → ℕ
token0_span l lo hi = l * (hi - lo) * 2 ^ 96

-- The product with a difference, as a difference.
pub span_lem : (l lo hi : ℕ) → lo ≤ hi → l * (hi - lo) + l * lo ≡ l * hi
span_lem l lo hi h = grind arith

-- The price after token0 goes in is at least the exact one, `l*p*2^96 / (l*2^96 + a*p)`.
price_after_token0_in-ge :
    (p l a : ℕ)
    → IsPrice p
    → IsLiquidity l
    → 0 < a
    → l * 2 ^ 96 * p ≤ price_after_token0_in p l a * (l * 2 ^ 96 + a * p)
price_after_token0_in-ge p l a hp hl ha = elim (lt_or_ge (a * p + l * 2 ^ 96) (2 ^ 256)) [
  | inl lt ↦
      rw (lt→ltb (a * p + l * 2 ^ 96) (2 ^ 256) lt)
        (omega (arith, le_mul_div_ceil (l * p * 2 ^ 96) (l * 2 ^ 96 + a * p) (omega arith)))
  | inr ge ↦
      let n = l * 2 ^ 96 in
      let d = n / p + a in
      let q = div_ceil n d in
      let pos : 0 < d = omega arith in
      let covers : n ≤ q * d = le_mul_div_ceil n d pos in
      let scaled : n * p ≤ q * d * p = mul_le n p (q * d) p covers (omega arith) in
      let whole : q * (n / p * p) ≤ q * n =
        mul_le q (n / p * p) q n (omega arith) (div-mul-le_self n p) in
      rw (le→ltb (a * p + l * 2 ^ 96) (2 ^ 256) ge) (omega arith)
]

price_after_token0_in-le :
    (p l a : ℕ) → IsPrice p → IsLiquidity l → 0 < a → price_after_token0_in p l a ≤ p
price_after_token0_in-le p l a hp hl ha = elim (lt_or_ge (a * p + l * 2 ^ 96) (2 ^ 256)) [
  | inl lt ↦
      rw (lt→ltb (a * p + l * 2 ^ 96) (2 ^ 256) lt)
        (added0-le p l a (l * 2 ^ 96 + a * p) hl.positive refl)
  | inr ge ↦
      let n = l * 2 ^ 96 in
      rw (le→ltb (a * p + l * 2 ^ 96) (2 ^ 256) ge) (
        div_ceil_le n (n / p + a) p (omega arith) (
          omega
            (arith, lt-div-mul-add {a = n} {b = p} (omega arith), mul_le p 1 p a (omega arith) ha)))
]

-- A price between two prices is one.
between : (lo hi q : ℕ) → IsPrice lo → IsPrice hi → lo ≤ q → q ≤ hi → IsPrice q
between lo hi q hlo hhi h k = record { min_le = omega arith; le_max = omega arith }

module _ (p t l a : ℕ) (hp : IsPrice p) (ht : IsPrice t) (hl : IsLiquidity l)
    (ha : IsAmount a) where
  -- For prices `t ≤ p` in range, a nonzero 128-bit liquidity and a nonzero 256-bit token0 input `a`
  -- with `a * (t * p)` below the token0 span from `t` to `p`: the next price exists, lies from `t`
  -- to `p`, and the input covers the token0 span from it to `p`.
  pub token0_in_lem :
      t ≤ p
      → a * (t * p) < token0_span l t p
      → (q : ℕ) × (get_next_sqrt_price_from_input p l a true ≡ ok q)
        × (t ≤ q)
        × (q ≤ p)
        × (token0_span l q p ≤ a * (q * p))
  unfolding get_next_sqrt_price_from_input get_next_sqrt_price_from_amount0_rounding_up
  token0_in_lem le short =
      let q = price_after_token0_in p l a in
      let d = l * 2 ^ 96 + a * p in
      let ge = price_after_token0_in-ge p l a hp hl ha.positive in
      let le_p = price_after_token0_in-le p l a hp hl ha.positive in
      let above : t ≤ q = elim (lt_or_ge q t) [
        | inl lt ↦
            absurd (omega (arith, span_lem l t p le, mul_le q d t d (omega arith) (omega arith)))
        | inr k ↦ k
      ] in
      (
        q,
        (amount0_add-Yields p l a hp hl ha).complete (between t p q ht hp above le_p),
        above,
        le_p,
        omega (arith, span_lem l q p le_p),
      )

  -- For prices `p ≤ t` in range, a nonzero 128-bit liquidity and a nonzero 256-bit token1 input `a`
  -- with `a * 2^96 < l * (t - p)`: the next price exists, lies from `p` to `t`, and the input covers
  -- the rise.
  pub token1_in_lem :
      p ≤ t
      → a * 2 ^ 96 < l * (t - p)
      → (q : ℕ) × (get_next_sqrt_price_from_input p l a false ≡ ok q)
        × (p ≤ q)
        × (q ≤ t)
        × (l * (q - p) ≤ a * 2 ^ 96)
  unfolding get_next_sqrt_price_from_input get_next_sqrt_price_from_amount1_rounding_down
  token1_in_lem le short =
      let rise = a * 2 ^ 96 / l in
      let below = div_lt_of_lt_mul (a * 2 ^ 96) l (t - p) hl.positive (omega arith) in
      (
        p + rise,
        (amount1_add-Yields p l a hp hl ha).complete
            (between p t (p + rise) hp ht (omega arith) (omega arith)),
        omega arith,
        omega arith,
        omega (arith, span_lem l p (p + rise) (omega arith), div-mul-le_self (a * 2 ^ 96) l),
      )

  -- For prices `t ≤ p` in range, a nonzero 128-bit liquidity and a nonzero 256-bit token1 output `a`
  -- with `a * 2^96 ≤ l * (p - t)`: the next price exists, lies from `t` to `p`, and the fall frees
  -- at least the output.
  pub token1_out_lem :
      t ≤ p
      → a * 2 ^ 96 ≤ l * (p - t)
      → (q : ℕ) × (get_next_sqrt_price_from_output p l a true ≡ ok q)
        × (t ≤ q)
        × (q ≤ p)
        × (a * 2 ^ 96 ≤ l * (p - q))
  unfolding get_next_sqrt_price_from_output get_next_sqrt_price_from_amount1_rounding_down
  token1_out_lem le short =
      let fall = div_ceil (a * 2 ^ 96) l in
      let below = div_ceil_le (a * 2 ^ 96) l (p - t) hl.positive (omega arith) in
      let back : p - fall + fall ≡ p = omega arith in
      (
        p - fall,
        (amount1_sub-Yields p l a hp hl ha).complete
            (between t p (p - fall) ht hp (omega arith) (omega arith)),
        omega arith,
        omega arith,
        omega (
          arith,
          span_lem l (p - fall) p (omega arith),
          le_mul_div_ceil (a * 2 ^ 96) l hl.positive,
          ap (λ (u : ℕ). l * u) back,
        ),
      )

  -- For prices `p ≤ t` in range, a nonzero 128-bit liquidity and a nonzero 256-bit token0 output `a`
  -- with `a * (p * t)` at most the token0 span from `p` to `t`: the next price exists, lies from `p`
  -- to `t`, and the rise frees at least the output.
  pub token0_out_lem :
      p ≤ t
      → a * (p * t) ≤ token0_span l p t
      → (q : ℕ) × (get_next_sqrt_price_from_output p l a false ≡ ok q)
        × (p ≤ q)
        × (q ≤ t)
        × (a * (p * q) ≤ token0_span l p q)
  unfolding get_next_sqrt_price_from_output get_next_sqrt_price_from_amount0_rounding_up
  token0_out_lem le short =
      let left = l * 2 ^ 96 - a * p in
      let span = span_lem l p t le in
      let some_liquidity = mul_le 1 1 l p hl.positive (omega arith) in
      let enough : a * p < l * 2 ^ 96 = elim (lt_or_ge (a * p) (l * 2 ^ 96)) [
        | inl lt ↦ lt
        | inr ge ↦ absurd (omega (arith, mul_le (l * 2 ^ 96) t (a * p) t ge (omega arith)))
      ] in
      let rest : left + a * p ≡ l * 2 ^ 96 = omega arith in
      let q = div_ceil (l * p * 2 ^ 96) left in
      let whole = le_mul_div_ceil (l * p * 2 ^ 96) left (omega arith) in
      let below : q ≤ t =
        div_ceil_le (l * p * 2 ^ 96) left t (omega arith)
          (omega (arith, ap (λ (u : ℕ). t * u) rest)) in
      let above : p ≤ q = elim (lt_or_ge q p) [
        | inl lt ↦ absurd (
            omega (
              arith,
              mul_le (q + 1) left p left (omega arith) (omega arith),
              ap (λ (u : ℕ). p * u) rest,
            ))
        | inr k ↦ k
      ] in
      (
        q,
        (amount0_sub-Yields p l a hp hl ha enough).complete (between p t q hp ht above below),
        above,
        below,
        omega (arith, span_lem l p q above, ap (λ (u : ℕ). q * u) rest),
      )
