-- ===== src/SqrtPriceMath/Yields.antt =====
-- About the four ways to move the price by an amount.
use native.Mathlib.Nat.{mod-eq_of_lt, le_refl, div-le_self}
use rm_uniswap.Prelude.{
  ℕ, ◌+◌, ◌-◌, ◌*◌, ◌/◌, ◌%◌, ◌^◌, ◌≤◌, ◌<◌, ◌≡◌, refl, arith, inl, inr, ◌⊎◌, true, false, Bool,
  Bool-cases, ltb, leb, if◌then◌else◌, lt_or_ge, le→leb, lt→leb, lt→ltb, le→ltb, div_ceil, Option,
  div_ceil_le, mul_le, some, none,
}
use rm_uniswap.Error.{
  Error, Result, ok, err, ok_or, price_overflow, invalid_sqrt_price, insufficient_token0_reserves,
  insufficient_token1_reserves,
}
use rm_uniswap.SqrtPrice.{IsPrice, from_u256, from_u256-IsPrice, from_u256-some}
use rm_uniswap.SqrtPriceMath.{
  into_sqrt_price, price_over, q96, amount1_quotient,
  get_next_sqrt_price_from_amount0_add_rounding_up, amount0_add_overflow_fallback,
  get_next_sqrt_price_from_amount0_sub_rounding_up,
  get_next_sqrt_price_from_amount1_add_rounding_down,
  get_next_sqrt_price_from_amount1_sub_rounding_down,
}
use rm_uniswap.SqrtPriceMath.Next.{
  IsLiquidity, IsAmount, price_over_lem, price_over_overflow, added0-le, amount0_add_lem,
  product_fits,
}
use rm_uniswap.Word.{bit_len, shl, wrapping_mul}
use rm_uniswap.Word.Count.{bit_len-le, lt_pow_of_bit_len-le}

-- The result is `ok v` where `v` is a price, and an error otherwise.
pub record Yields (r : Result ℕ) (v : ℕ) : Type 0 where
  pub complete : IsPrice v → r ≡ ok v
  pub sound : (p : ℕ) → r ≡ ok p → (p ≡ v) × IsPrice p

ok_or-some : {p : ℕ} (e : Error) (o : Option ℕ) → ok_or o e ≡ ok p → o ≡ some p
ok_or-some e none h = cc
ok_or-some e (some v) h = cc

into_sqrt_price-Yields : (v : ℕ) → v < 2 ^ 256 → Yields (into_sqrt_price v) v
unfolding into_sqrt_price
into_sqrt_price-Yields v h = record {
  complete = λ c. rw (from_u256-some v c);
  sound = λ p e. from_u256-IsPrice v h (ok_or-some invalid_sqrt_price (from_u256 v) e);
}

-- An error yields what is no price.
err-Yields : (e : Error) (v : ℕ) → ¬ (IsPrice v) → Yields (err e) v
err-Yields e v no_price = record { complete = λ c. absurd (no_price c); sound = λ p h. cc }

price_over-Yields :
    (p l d : ℕ)
    → l < 2 ^ 128
    → p < 2 ^ 160
    → 0 < d
    → Yields (price_over p l d) (div_ceil (l * p * 2 ^ 96) d)
price_over-Yields p l d hl hp pos =
    let q = div_ceil (l * p * 2 ^ 96) d in
    elim (lt_or_ge q (2 ^ 256)) [
      | inl lt ↦ rw (price_over_lem p l d hl hp pos lt) (into_sqrt_price-Yields q lt)
      | inr ge ↦
          rw (price_over_overflow p l d hl hp pos ge)
            (err-Yields price_overflow q (λ c. omega arith))
    ]

-- The price after token0 goes in: the exact quotient rounded up, or Solidity's fallback where its
-- denominator is no word.
abbrev pub price_after_token0_in : ℕ → ℕ → ℕ → ℕ
price_after_token0_in p l a =
    if ltb (a * p + l * 2 ^ 96) (2 ^ 256)
    then div_ceil (l * p * 2 ^ 96) (l * 2 ^ 96 + a * p)
    else div_ceil (l * 2 ^ 96) (l * 2 ^ 96 / p + a)

fallback-Yields :
    (p l a : ℕ)
    → IsPrice p
    → IsLiquidity l
    → IsAmount a
    → Yields
        (amount0_add_overflow_fallback (l * 2 ^ 96) p a)
        (div_ceil (l * 2 ^ 96) (l * 2 ^ 96 / p + a))
unfolding amount0_add_overflow_fallback
fallback-Yields p l a hp hl ha =
    let n = l * 2 ^ 96 in
    let d = n / p + a in
    let q_le : div_ceil n d ≤ n =
      div_ceil_le n d n (omega arith) (omega (arith, mul_le n 1 n d (le_refl n) (omega arith))) in
    elim (lt_or_ge d (2 ^ 256)) [
      | inl lt ↦ rw (lt→ltb d (2 ^ 256) lt) (into_sqrt_price-Yields (div_ceil n d) (omega arith))
      | inr ge ↦
          let one : div_ceil n d ≤ 1 = div_ceil_le n d 1 (omega arith) (omega arith) in
          rw (le→ltb d (2 ^ 256) ge) (err-Yields price_overflow (div_ceil n d) (λ c. omega arith))
    ]

-- For a price in range, a nonzero 128-bit liquidity and a nonzero 256-bit amount: the token0
-- addition returns `ok v` where `v = price_after_token0_in` is in range, and whatever it returns is
-- that `v`, in range.
pub amount0_add-Yields :
    (p l a : ℕ)
    → IsPrice p
    → IsLiquidity l
    → IsAmount a
    → Yields (get_next_sqrt_price_from_amount0_add_rounding_up p l a) (price_after_token0_in p l a)
amount0_add-Yields p l a hp hl ha =
    rw (amount0_add_lem p l a hp hl ha) (elim (lt_or_ge (a * p + l * 2 ^ 96) (2 ^ 256)) [
      | inl lt ↦
          let d = l * 2 ^ 96 + a * p in
          rw (lt→ltb (a * p + l * 2 ^ 96) (2 ^ 256) lt) (
            into_sqrt_price-Yields (div_ceil (l * p * 2 ^ 96) d)
              (omega (arith, added0-le p l a d hl.positive refl)))
      | inr ge ↦ rw (le→ltb (a * p + l * 2 ^ 96) (2 ^ 256) ge) (fallback-Yields p l a hp hl ha)
    ])

-- For a price in range, a nonzero 128-bit liquidity and a nonzero 256-bit amount with `a * p < l *
-- 2^96`: the token0 subtraction returns `ceil(l * p * 2^96 / (l * 2^96 - a * p))` where that is in
-- range, and whatever it returns is that number, in range.
pub amount0_sub-Yields :
    (p l a : ℕ)
    → IsPrice p
    → IsLiquidity l
    → IsAmount a
    → a * p < l * 2 ^ 96
    → Yields
        (get_next_sqrt_price_from_amount0_sub_rounding_up p l a)
        (div_ceil (l * p * 2 ^ 96) (l * 2 ^ 96 - a * p))
unfolding get_next_sqrt_price_from_amount0_sub_rounding_up
amount0_sub-Yields p l a hp hl ha below =
    let n1 : q96 l ≡ l * 2 ^ 96 = omega arith in
    let product : wrapping_mul 256 a p ≡ a * p = mod-eq_of_lt (omega arith) in
    let rest : (l * 2 ^ 96 + 2 ^ 256 - a * p) % 2 ^ 256 ≡ l * 2 ^ 96 - a * p = omega arith in
    let bits = bit_len 256 a + bit_len 256 p in
    let price = price_over-Yields p l (l * 2 ^ 96 - a * p) hl.fits (omega arith) (omega arith) in
    rw
      (product, n1, rest, lt→leb (l * 2 ^ 96) (a * p) below, lt→leb (2 ^ 256) (a * p) (omega arith))
      (elim (Bool-cases (leb bits 256)) [ inl e ↦ rw e price | inr e ↦ rw e price ])

-- For the same operands with `l * 2^96 ≤ a * p`, the token0 subtraction fails with the error for
-- insufficient token0 reserves.
pub amount0_sub_insufficient :
    (p l a : ℕ)
    → IsPrice p
    → IsLiquidity l
    → IsAmount a
    → l * 2 ^ 96 ≤ a * p
    → get_next_sqrt_price_from_amount0_sub_rounding_up p l a ≡ err insufficient_token0_reserves
unfolding get_next_sqrt_price_from_amount0_sub_rounding_up
amount0_sub_insufficient p l a hp hl ha above =
    let n1 : q96 l ≡ l * 2 ^ 96 = omega arith in
    let bits = bit_len 256 a + bit_len 256 p in
    elim (lt_or_ge (a * p) (2 ^ 256)) [
      | inl lt ↦
          rw (mod-eq_of_lt lt, n1, le→leb (l * 2 ^ 96) (a * p) above, lt→leb (2 ^ 256) (a * p) lt)
            (elim (Bool-cases (leb bits 256)) [ inl e ↦ rw e | inr e ↦ rw e ])
      | inr ge ↦ elim (lt_or_ge 256 bits) [
        | inl long ↦ rw (lt→leb bits 256 long, le→leb (2 ^ 256) (a * p) ge)
        | inr short ↦ absurd (omega (arith, product_fits a p 256 ha.fits (omega arith) short))
      ]
    ]

-- The quotient is exact, or it is refused since it cannot move a price.
quotient-cases :
    (a l : ℕ) (up : Bool) (e : Error)
    → IsAmount a
    → IsLiquidity l
    → (let q = if up then div_ceil (a * 2 ^ 96) l else a * 2 ^ 96 / l in
        (amount1_quotient a l up e ≡ ok q) ⊎ (amount1_quotient a l up e ≡ err e) × (2 ^ 160 ≤ q))
unfolding amount1_quotient
quotient-cases a l up e ha hl =
    let q = if up then div_ceil (a * 2 ^ 96) l else a * 2 ^ 96 / l in
    let q_le : q ≤ a * 2 ^ 96 = rounded_le up in
    elim (lt_or_ge a (2 ^ 160)) [
      | inl lt ↦
          let kept : shl 256 a 96 ≡ a * 2 ^ 96 =
            mod-eq_of_lt {n = a * 2 ^ 96} {m = 2 ^ 256} (omega arith) in
          inl (rw (le→leb (bit_len 256 a) 160 (bit_len-le 256 a 160 lt), kept))
      | inr ge ↦
          let kept : shl 352 a 96 ≡ a * 2 ^ 96 =
            mod-eq_of_lt {n = a * 2 ^ 96} {m = 2 ^ 352} (omega arith) in
          let long : 160 < bit_len 256 a = wide_of_ge ge in
          elim (lt_or_ge 160 (bit_len 352 q)) [
            | inl big ↦ inr (
              rw (lt→leb (bit_len 256 a) 160 long, kept, lt→ltb 160 (bit_len 352 q) big),
              ge_of_wide q big,
            )
            | inr small ↦
                inl (rw (lt→leb (bit_len 256 a) 160 long, kept, le→ltb 160 (bit_len 352 q) small))
          ]
    ]
  where
    rounded_le : (up : Bool) → (if up then div_ceil (a * 2 ^ 96) l else a * 2 ^ 96 / l) ≤ a * 2 ^ 96
    rounded_le true =
        div_ceil_le (a * 2 ^ 96) l (a * 2 ^ 96) hl.positive
          (omega (arith, mul_le (a * 2 ^ 96) 1 (a * 2 ^ 96) l (le_refl _) hl.positive))
    rounded_le false = div-le_self (a * 2 ^ 96) l

    wide_of_ge : 2 ^ 160 ≤ a → 160 < bit_len 256 a
    wide_of_ge ge = elim (lt_or_ge 160 (bit_len 256 a)) [
      | inl lt ↦ lt
      | inr le ↦ absurd (omega (arith, lt_pow_of_bit_len-le 256 a 160 ha.fits le))
    ]

    ge_of_wide : (q : ℕ) → 160 < bit_len 352 q → 2 ^ 160 ≤ q
    ge_of_wide q big = elim (lt_or_ge q (2 ^ 160)) [
      | inl lt ↦ absurd (omega (arith, bit_len-le 352 q 160 lt))
      | inr ge ↦ ge
    ]

-- For a price in range, a nonzero 128-bit liquidity and a nonzero 256-bit amount: the token1
-- addition returns `p + floor(a * 2^96 / l)` where that is in range, and whatever it returns is that
-- number, in range.
pub amount1_add-Yields :
    (p l a : ℕ)
    → IsPrice p
    → IsLiquidity l
    → IsAmount a
    → Yields (get_next_sqrt_price_from_amount1_add_rounding_down p l a) (p + a * 2 ^ 96 / l)
unfolding get_next_sqrt_price_from_amount1_add_rounding_down
amount1_add-Yields p l a hp hl ha = elim (quotient-cases a l false price_overflow ha hl) [
  | inr (e, big) ↦ rw e (err-Yields price_overflow (p + a * 2 ^ 96 / l) (λ c. omega arith))
  | inl e ↦ rw e (elim (lt_or_ge (p + a * 2 ^ 96 / l) (2 ^ 256)) [
    | inl lt ↦
        rw (lt→ltb (p + a * 2 ^ 96 / l) (2 ^ 256) lt)
          (into_sqrt_price-Yields (p + a * 2 ^ 96 / l) lt)
    | inr ge ↦
        rw (le→ltb (p + a * 2 ^ 96 / l) (2 ^ 256) ge)
          (err-Yields price_overflow (p + a * 2 ^ 96 / l) (λ c. omega arith))
  ])
]

-- For a price in range, a nonzero 128-bit liquidity and a nonzero 256-bit amount: the token1
-- subtraction returns `p - ceil(a * 2^96 / l)` (stopping at zero) where that is in range, and
-- whatever it returns is that number, in range.
pub amount1_sub-Yields :
    (p l a : ℕ)
    → IsPrice p
    → IsLiquidity l
    → IsAmount a
    → Yields
        (get_next_sqrt_price_from_amount1_sub_rounding_down p l a)
        (p - div_ceil (a * 2 ^ 96) l)
unfolding get_next_sqrt_price_from_amount1_sub_rounding_down
amount1_sub-Yields p l a hp hl ha =
    let q = div_ceil (a * 2 ^ 96) l in
    elim (quotient-cases a l true insufficient_token1_reserves ha hl) [
      | inr (e, big) ↦ rw e (err-Yields insufficient_token1_reserves (p - q) (λ c. omega arith))
      | inl e ↦ rw e (elim (lt_or_ge q p) [
        | inl lt ↦
            let rest : (p + 2 ^ 256 - q) % 2 ^ 256 ≡ p - q = omega arith in
            rw (lt→leb p q lt, rest) (into_sqrt_price-Yields (p - q) (omega arith))
        | inr ge ↦
            rw (le→leb p q ge) (err-Yields insufficient_token1_reserves (p - q) (λ c. omega arith))
      ])
    ]
