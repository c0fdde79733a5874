-- ===== src/SqrtPriceMath/Next.antt =====
-- About the paths of the token0 addition.
use native.Mathlib.Nat.{mod-eq_of_lt, le_refl}
use rm_uniswap.Prelude.{
  ℕ, ◌+◌, ◌*◌, ◌%◌, ◌^◌, ◌≤◌, ◌<◌, ◌≡◌, refl, ap, arith, inl, inr, ltb, if◌then◌else◌, lt_or_ge,
  le→leb, lt→leb, lt→ltb, le→ltb, div_ceil, div_ceil_le, mul_lt, mul_le,
}
use rm_uniswap.Error.{Result, err, price_overflow}
use rm_uniswap.SqrtPrice.{IsPrice}
use rm_uniswap.SqrtPriceMath.{
  into_sqrt_price, price_over, liquidity_sqrt_q96_div_rounding_up, div_u384_by_u256_rounding_up,
  q96, add_or_fallback, get_next_sqrt_price_from_amount0_add_rounding_up,
  amount0_add_overflow_fallback,
}
use rm_uniswap.Word.{bit_len, shl, wrapping_mul}
use rm_uniswap.Word.Count.{bit_len-le, lt_pow_bit_len, lt_pow_of_bit_len-le}
use rm_uniswap.Word.Pow.{two_pow_add, two_pow_le}

-- A liquidity and an amount that the newtypes accept.
pub record IsLiquidity (l : ℕ) : Type 0 where
  pub positive : 0 < l
  pub fits : l < 2 ^ 128

pub record IsAmount (a : ℕ) : Type 0 where
  pub positive : 0 < a
  pub fits : a < 2 ^ 256

-- The bit lengths bound the product.
pub product_fits :
    (a p k : ℕ) → a < 2 ^ 256 → p < 2 ^ 256 → bit_len 256 a + bit_len 256 p ≤ k → a * p < 2 ^ k
product_fits a p k ha hp h =
    let i = bit_len 256 a in
    let j = bit_len 256 p in
    omega (
      arith,
      mul_lt a p (2 ^ i) (2 ^ j) (lt_pow_bit_len 256 a ha) (lt_pow_bit_len 256 p hp),
      two_pow_add i j (i + j) refl,
      two_pow_le (i + j) k h,
    )

-- The price over a denominator, where the quotient is a word.
pub price_over_lem :
    (p l d : ℕ)
    → l < 2 ^ 128
    → p < 2 ^ 160
    → 0 < d
    → div_ceil (l * p * 2 ^ 96) d < 2 ^ 256
    → price_over p l d ≡ into_sqrt_price (div_ceil (l * p * 2 ^ 96) d)
unfolding price_over liquidity_sqrt_q96_div_rounding_up div_u384_by_u256_rounding_up
price_over_lem p l d hl hp pos fits =
    let small = mul_lt l p (2 ^ 128) (2 ^ 160) hl hp in
    let kept : shl 384 (l * p) 96 ≡ l * p * 2 ^ 96 =
      mod-eq_of_lt {n = l * p * 2 ^ 96} {m = 2 ^ 384} (omega arith) in
    let quotient = div_ceil (l * p * 2 ^ 96) d in
    rw (kept, le→ltb 256 (bit_len 384 quotient) (bit_len-le 384 quotient 256 fits))

pub price_over_overflow :
    (p l d : ℕ)
    → l < 2 ^ 128
    → p < 2 ^ 160
    → 0 < d
    → 2 ^ 256 ≤ div_ceil (l * p * 2 ^ 96) d
    → price_over p l d ≡ err price_overflow
unfolding price_over liquidity_sqrt_q96_div_rounding_up div_u384_by_u256_rounding_up
price_over_overflow p l d hl hp pos over =
    let small = mul_lt l p (2 ^ 128) (2 ^ 160) hl hp in
    let n = l * p * 2 ^ 96 in
    let kept : shl 384 (l * p) 96 ≡ n = mod-eq_of_lt {n = n} {m = 2 ^ 384} (omega arith) in
    let quotient = div_ceil n d in
    let wide : 256 < bit_len 384 quotient = elim (lt_or_ge 256 (bit_len 384 quotient)) [
      | inl lt ↦ lt
      | inr ge ↦ absurd (
          omega (
            arith,
            div_ceil_le n d n pos (omega (arith, mul_le n 1 n d (le_refl n) pos)),
            lt_pow_of_bit_len-le 384 quotient 256
                (omega
                  (arith, div_ceil_le n d n pos (omega (arith, mul_le n 1 n d (le_refl n) pos))))
                ge,
          ))
    ] in
    rw (kept, lt→ltb 256 (bit_len 384 quotient) wide)

-- The formula that all three paths for adding token0 compute.
abbrev pub added0 : ℕ → ℕ → ℕ → Result ℕ
added0 p l a =
    if ltb (a * p + l * 2 ^ 96) (2 ^ 256)
    then into_sqrt_price (div_ceil (l * p * 2 ^ 96) (l * 2 ^ 96 + a * p))
    else amount0_add_overflow_fallback (l * 2 ^ 96) p a

-- With token0 added the quotient is at most the old price.
pub added0-le : (p l a d : ℕ) → 0 < l → d ≡ l * 2 ^ 96 + a * p → div_ceil (l * p * 2 ^ 96) d ≤ p
added0-le p l a d pos e =
    div_ceil_le (l * p * 2 ^ 96) d p (omega arith) (omega (arith, ap (λ (t : ℕ). p * t) e))

module _ (p l a : ℕ) (hp : IsPrice p) (hl : IsLiquidity l) (ha : IsAmount a) where
  q96_lem : q96 l ≡ l * 2 ^ 96
  q96_lem = omega arith

  price_over_sum :
      a * p + l * 2 ^ 96 < 2 ^ 256
      → price_over p l (l * 2 ^ 96 + a * p)
        ≡ into_sqrt_price (div_ceil (l * p * 2 ^ 96) (l * 2 ^ 96 + a * p))
  price_over_sum h =
      price_over_lem p l (l * 2 ^ 96 + a * p) hl.fits (omega arith) (omega arith)
        (omega (arith, added0-le p l a (l * 2 ^ 96 + a * p) hl.positive refl))

  add_or_fallback_lem :
      a * p < 2 ^ 256 → add_or_fallback p l a (wrapping_mul 256 a p) ≡ added0 p l a
  unfolding add_or_fallback
  add_or_fallback_lem h = elim (lt_or_ge (a * p + l * 2 ^ 96) (2 ^ 256)) [
    | inl lt ↦
        rw
          (
            mod-eq_of_lt h,
            q96_lem,
            lt→ltb (l * 2 ^ 96 + a * p) (2 ^ 256) (omega arith),
            lt→ltb (a * p + l * 2 ^ 96) (2 ^ 256) lt,
          )
          (price_over_sum lt)
    | inr ge ↦ rw (
      mod-eq_of_lt h,
      q96_lem,
      le→ltb (l * 2 ^ 96 + a * p) (2 ^ 256) (omega arith),
      le→ltb (a * p + l * 2 ^ 96) (2 ^ 256) ge,
      q96_lem,
    )
  ]

-- The three paths of the token0 addition, chosen by the bit lengths of the operands, compute one
-- formula: the exact price rounded up where the denominator is a word, the fallback otherwise.
pub amount0_add_lem :
    (p l a : ℕ)
    → IsPrice p
    → IsLiquidity l
    → IsAmount a
    → get_next_sqrt_price_from_amount0_add_rounding_up p l a ≡ added0 p l a
unfolding get_next_sqrt_price_from_amount0_add_rounding_up
amount0_add_lem p l a hp hl ha =
    let bits = bit_len 256 a + bit_len 256 p in
    let p_fits : p < 2 ^ 256 = omega arith in
    elim (lt_or_ge 255 bits) [
      | inr short ↦
          let small = product_fits a p 255 ha.fits p_fits short in
          let product : wrapping_mul 256 a p ≡ a * p = mod-eq_of_lt (omega arith) in
          let sum : (l * 2 ^ 96 + a * p) % 2 ^ 256 ≡ l * 2 ^ 96 + a * p =
            mod-eq_of_lt (omega arith) in
          rw
            (
              le→leb bits 255 short,
              q96_lem p l a hp hl ha,
              product,
              sum,
              lt→ltb (a * p + l * 2 ^ 96) (2 ^ 256) (omega arith),
            )
            (price_over_sum p l a hp hl ha (omega arith))
      | inl long ↦ rw (lt→leb bits 255 long) (elim (lt_or_ge 256 bits) [
        | inr equal ↦
            rw (le→leb bits 256 equal)
              (add_or_fallback_lem p l a hp hl ha (product_fits a p 256 ha.fits p_fits equal))
        | inl longer ↦ rw (lt→leb bits 256 longer) (elim (lt_or_ge (a * p) (2 ^ 256)) [
          | inl lt ↦ rw (lt→ltb (a * p) (2 ^ 256) lt) (add_or_fallback_lem p l a hp hl ha lt)
          | inr ge ↦ rw (
            le→ltb (a * p) (2 ^ 256) ge,
            q96_lem p l a hp hl ha,
            le→ltb (a * p + l * 2 ^ 96) (2 ^ 256) (omega arith),
          )
        ])
      ])
    ]
