-- ===== src/SwapMath/ExactOut.antt =====
-- About `compute_exact_out`.
use native.Mathlib.Nat.{div-mul-le_self}
use rm_uniswap.Prelude.{
  ℕ, ◌-◌, ◌*◌, ◌/◌, ◌^◌, ◌≤◌, ◌<◌, ◌≡◌, refl, arith, inl, inr, true, false, Bool, leb,
  if◌then◌else◌, lt_or_ge, le→leb, lt→leb, div_ceil, le_mul_div_ceil, mul_le, mul_le_of_le_div,
}
use rm_uniswap.Error.{ok}
use rm_uniswap.Fee.{Fee}
use rm_uniswap.SqrtPrice.{IsPrice}
use rm_uniswap.SqrtPriceMath.Next.{IsLiquidity, IsAmount}
use rm_uniswap.SqrtPriceMath.Amounts.{
  amount0_delta_up_lem, amount1_delta_up_lem, amount0_small, amount1_small, product_le,
  amount0_with_liquidity_lem, amount1_with_liquidity_lem,
}
use rm_uniswap.SqrtPriceMath.Direction.{token0_span, token0_out_lem, token1_out_lem}
use rm_uniswap.SwapMath.{
  SwapStep, compute_exact_out, exact_out_reached, exact_out_partial, max_output,
}
use rm_uniswap.Fee.Protocol.{IsFee}
use rm_uniswap.SwapMath.Fees.{fee_on_exact_input_lem}
use rm_uniswap.SwapMath.Spec.{FundedDown, FundedUp, Funded, ExactOutBooks}

module _ (p t l a : ℕ) (f : Fee) (hp : IsPrice p) (ht : IsPrice t) (hl : IsLiquidity l)
    (ha : IsAmount a) (hf : IsFee f) (below_max : f.pips < 1_000_000) where
  -- The input `i` and the output `o` that moves the price to `q`, with the fee on top.
  abbrev priced : ℕ → ℕ → ℕ → SwapStep
  priced q i o = record {
    sqrt_ratio_next_x96 = q;
    amount_in = i;
    amount_out = o;
    fee_amount = div_ceil (i * f.pips) f.complement;
  }

  fee_covers : (i : ℕ) → i * f.pips ≤ div_ceil (i * f.pips) f.complement * f.complement
  fee_covers i = le_mul_div_ceil (i * f.pips) f.complement (omega arith)

  branches :
      (down : Bool) (m x : ℕ)
      → max_output p t l down ≡ ok (m, x)
      → compute_exact_out p t l a f down
        ≡ (if leb m a then exact_out_reached p t f down m x else exact_out_partial p l a f down)
  unfolding compute_exact_out
  branches down m x e = rw e

  out_down_reached :
      t ≤ p
      → l * (p - t) / 2 ^ 96 ≤ a
      → (s : SwapStep) × (exact_out_reached p t f true (l * (p - t) / 2 ^ 96) (l * (p - t)) ≡ ok s)
        × FundedDown p t l s
        × ExactOutBooks t a f s
  unfolding exact_out_reached
  out_down_reached le reach =
      let m = div_ceil (token0_span l t p) (t * p) in
      let d_pos = mul_le 1 1 t p (omega arith) (omega arith) in
      let m_small : m ≤ 2 ^ 224 = amount0_small t p l true ht hp hl.fits le in
      let o = l * (p - t) / 2 ^ 96 in
      (
        priced t m o,
        rw (
          amount0_with_liquidity_lem t p (l * (p - t)) true ht hp
              (inr (product_le t p l true ht hp hl.fits le)),
          fee_on_exact_input_lem m f hf below_max (omega arith),
        ),
        record {
          not_past = omega arith;
          not_back = le;
          pays = le_mul_div_ceil (token0_span l t p) (t * p) (omega arith);
          takes = div-mul-le_self (l * (p - t)) (2 ^ 96);
        },
        record { within = reach; delivered = inl refl; fee_due = fee_covers m },
      )

  out_up_reached :
      p ≤ t
      → token0_span l p t / (p * t) ≤ a
      → (s : SwapStep) × (exact_out_reached p t f false (token0_span l p t / (p * t)) (l * (t - p))
          ≡ ok s)
        × FundedUp p t l s
        × ExactOutBooks t a f s
  unfolding exact_out_reached
  out_up_reached le reach =
      let m = div_ceil (l * (t - p)) (2 ^ 96) in
      let m_small : m ≤ 2 ^ 224 = amount1_small p t l true hp ht hl.fits le in
      let o = token0_span l p t / (p * t) in
      (
        priced t m o,
        rw (
          amount1_with_liquidity_lem (l * (t - p)) true,
          fee_on_exact_input_lem m f hf below_max (omega arith),
        ),
        record {
          not_past = omega arith;
          not_back = le;
          pays = le_mul_div_ceil (l * (t - p)) (2 ^ 96) (omega arith);
          takes = div-mul-le_self (token0_span l p t) (p * t);
        },
        record { within = reach; delivered = inl refl; fee_due = fee_covers m },
      )

  out_down_partial :
      t ≤ p
      → a < l * (p - t) / 2 ^ 96
      → (s : SwapStep) × (exact_out_partial p l a f true ≡ ok s)
        × FundedDown p t l s
        × ExactOutBooks t a f s
  unfolding exact_out_partial
  out_down_partial le short =
      let (q, e, above, below, takes) =
        token1_out_lem p t l a hp ht hl ha le
          (mul_le_of_le_div (l * (p - t)) (2 ^ 96) a (omega arith) (omega arith)) in
      let hq : IsPrice q = record { min_le = omega arith; le_max = omega arith } in
      let d_pos = mul_le 1 1 q p (omega arith) (omega arith) in
      let m = div_ceil (token0_span l q p) (q * p) in
      let m_small : m ≤ 2 ^ 224 = amount0_small q p l true hq hp hl.fits below in
      (
        priced q m a,
        rw (
          e,
          amount0_delta_up_lem q p l true hq hp hl.fits below,
          fee_on_exact_input_lem m f hf below_max (omega arith),
        ),
        record {
          not_past = above;
          not_back = below;
          pays = le_mul_div_ceil (token0_span l q p) (q * p) (omega arith);
          takes = takes;
        },
        record { within = omega arith; delivered = inr refl; fee_due = fee_covers m },
      )

  out_up_partial :
      p ≤ t
      → a < token0_span l p t / (p * t)
      → (s : SwapStep) × (exact_out_partial p l a f false ≡ ok s)
        × FundedUp p t l s
        × ExactOutBooks t a f s
  unfolding exact_out_partial
  out_up_partial le short =
      let d_pos = mul_le 1 1 p t (omega arith) (omega arith) in
      let (q, e, above, below, takes) =
        token0_out_lem p t l a hp ht hl ha le
          (mul_le_of_le_div (token0_span l p t) (p * t) a (omega arith) (omega arith)) in
      let hq : IsPrice q = record { min_le = omega arith; le_max = omega arith } in
      let m = div_ceil (l * (q - p)) (2 ^ 96) in
      let m_small : m ≤ 2 ^ 224 = amount1_small p q l true hp hq hl.fits above in
      (
        priced q m a,
        rw (
          e,
          amount1_delta_up_lem p q l true hp hq hl.fits above,
          fee_on_exact_input_lem m f hf below_max (omega arith),
        ),
        record {
          not_past = below;
          not_back = above;
          pays = le_mul_div_ceil (l * (q - p)) (2 ^ 96) (omega arith);
          takes = takes;
        },
        record { within = omega arith; delivered = inr refl; fee_due = fee_covers m },
      )

  out_down :
      t ≤ p
      → (s : SwapStep) × (compute_exact_out p t l a f true ≡ ok s)
        × FundedDown p t l s
        × ExactOutBooks t a f s
  unfolding max_output
  out_down le =
      let m = l * (p - t) / 2 ^ 96 in
      let split =
        branches true m (l * (p - t)) (amount1_delta_up_lem t p l false ht hp hl.fits le) in
      elim (lt_or_ge a m) [
        | inl short ↦
            let (s, e, funded, books) = out_down_partial le short in
            (s, rw (split, lt→leb m a short) e, funded, books)
        | inr reach ↦
            let (s, e, funded, books) = out_down_reached le reach in
            (s, rw (split, le→leb m a reach) e, funded, books)
      ]

  out_up :
      p ≤ t
      → (s : SwapStep) × (compute_exact_out p t l a f false ≡ ok s)
        × FundedUp p t l s
        × ExactOutBooks t a f s
  unfolding max_output
  out_up le =
      let m = token0_span l p t / (p * t) in
      let split =
        branches false m (l * (t - p)) (amount0_delta_up_lem p t l false hp ht hl.fits le) in
      elim (lt_or_ge a m) [
        | inl short ↦
            let (s, e, funded, books) = out_up_partial le short in
            (s, rw (split, lt→leb m a short) e, funded, books)
        | inr reach ↦
            let (s, e, funded, books) = out_up_reached le reach in
            (s, rw (split, le→leb m a reach) e, funded, books)
      ]

  pub exact_out_lem :
      (s : SwapStep) × (compute_exact_out p t l a f (leb t p) ≡ ok s)
      × Funded p t l s
      × ExactOutBooks t a f s
  exact_out_lem = elim (lt_or_ge p t) [
    | inr le ↦
        let (s, e, funded, books) = out_down le in
        (s, rw (le→leb t p le) e, inl (le, funded), books)
    | inl lt ↦
        let (s, e, funded, books) = out_up (omega arith) in
        (s, rw (lt→leb t p lt) e, inr (lt, funded), books)
  ]
