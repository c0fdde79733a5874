-- ===== src/SwapMath/ExactInCases.antt =====
-- About the branches of `compute_exact_in` that move the price.
use native.Mathlib.Nat.{div-mul-le_self}
use rm_uniswap.Prelude.{
  ℕ, ◌-◌, ◌*◌, ◌/◌, ◌^◌, ◌≤◌, ◌<◌, ◌≡◌, refl, ap, arith, inl, inr, true, false, lt_or_ge, div_ceil,
  div_ceil_le, le_mul_div_ceil, mul_le,
}
use rm_uniswap.Error.{ok}
use rm_uniswap.Fee.{Fee}
use rm_uniswap.SqrtPrice.{IsPrice}
use rm_uniswap.SqrtPriceMath.Next.{IsLiquidity, IsAmount}
use rm_uniswap.SqrtPriceMath.Amounts.{
  amount0_delta_up_lem, amount1_delta_up_lem, amount0_small, amount1_small, product_le,
  amount0_with_liquidity_lem, amount1_with_liquidity_lem,
}
use rm_uniswap.SqrtPriceMath.Direction.{token0_span, token0_in_lem, token1_in_lem}
use rm_uniswap.SwapMath.{SwapStep, exact_in_reached, exact_in_partial}
use rm_uniswap.Fee.Protocol.{IsFee}
use rm_uniswap.SwapMath.Fees.{fee_on_exact_input_lem}
use rm_uniswap.SwapMath.Spec.{FundedDown, FundedUp, ExactInBooks}
use rm_uniswap.SwapMath.Net.{lt_of_lt_ceil, net, net_le, fee_room}

module _ (p t l a : ℕ) (f : Fee) (hp : IsPrice p) (ht : IsPrice t) (hl : IsLiquidity l)
    (ha : IsAmount a) (hf : IsFee f) where
  -- With net input left, the fee is not 100%.
  not_max : 0 < net a f → f.pips < 1_000_000
  not_max pos = elim (lt_or_ge f.pips 1_000_000) [
    | inl lt ↦ lt
    | inr ge ↦
        let none_left : f.complement ≡ 0 = omega arith in
        absurd (omega (arith, net_le a f hf, ap (λ (u : ℕ). a * u) none_left))
  ]

  -- The fee on an input that the net amount covers fits beside it.
  books_reached :
      (m out : ℕ)
      → 0 < net a f
      → m ≤ net a f
      → ExactInBooks t a f (record {
        sqrt_ratio_next_x96 = t;
        amount_in = m;
        amount_out = out;
        fee_amount = div_ceil (m * f.pips) f.complement;
      })
  books_reached m out pos le =
      let room = fee_room a m f hf le in
      let below = not_max pos in
      record {
        within = omega (arith, div_ceil_le (m * f.pips) f.complement (a - m) (omega arith) room.1);
        used_up = inl refl;
        fee_due = le_mul_div_ceil (m * f.pips) f.complement (omega arith);
      }

  books_partial :
      (q out : ℕ)
      → ExactInBooks t a f (record {
        sqrt_ratio_next_x96 = q;
        amount_in = net a f;
        amount_out = out;
        fee_amount = a - net a f;
      })
  books_partial q out =
      let room = fee_room a (net a f) f hf (omega arith) in
      record { within = omega arith; used_up = inr (omega arith); fee_due = room.1 }

  pub in_down_reached :
      t ≤ p
      → 0 < net a f
      → div_ceil (token0_span l t p) (t * p) ≤ net a f
      → (s : SwapStep) × (exact_in_reached p t f true
            (div_ceil (token0_span l t p) (t * p))
            (l * (p - t))
          ≡ ok s)
        × FundedDown p t l s
        × ExactInBooks t a f s
  unfolding exact_in_reached
  in_down_reached le pos reach =
      let m = div_ceil (token0_span l t p) (t * p) in
      let d_pos = mul_le 1 1 t p (omega arith) (omega arith) in
      let m_small : m ≤ 2 ^ 224 = amount0_small t p l true ht hp hl.fits le in
      (
        record {
          sqrt_ratio_next_x96 = t;
          amount_in = m;
          amount_out = l * (p - t) / 2 ^ 96;
          fee_amount = div_ceil (m * f.pips) f.complement;
        },
        rw (
          amount1_with_liquidity_lem (l * (p - t)) false,
          fee_on_exact_input_lem m f hf (not_max pos) (omega arith),
        ),
        record {
          not_past = omega arith;
          not_back = le;
          pays = le_mul_div_ceil (token0_span l t p) (t * p) (omega arith);
          takes = div-mul-le_self (l * (p - t)) (2 ^ 96);
        },
        books_reached m (l * (p - t) / 2 ^ 96) pos reach,
      )

  pub in_down_partial :
      t ≤ p
      → 0 < net a f
      → net a f < div_ceil (token0_span l t p) (t * p)
      → (s : SwapStep) × (exact_in_partial p l a true (net a f) ≡ ok s)
        × FundedDown p t l s
        × ExactInBooks t a f s
  unfolding exact_in_partial
  in_down_partial le pos short =
      let d_pos = mul_le 1 1 t p (omega arith) (omega arith) in
      let room = fee_room a (net a f) f hf (omega arith) in
      let amount : IsAmount (net a f) = record { positive = pos; fits = omega (arith, ha.fits) } in
      let (q, e, above, below, pays) =
        token0_in_lem p t l (net a f) hp ht hl amount le
          (lt_of_lt_ceil (token0_span l t p) (t * p) (net a f) (omega arith) short) in
      let hq : IsPrice q = record { min_le = omega arith; le_max = omega arith } in
      (
        record {
          sqrt_ratio_next_x96 = q;
          amount_in = net a f;
          amount_out = l * (p - q) / 2 ^ 96;
          fee_amount = a - net a f;
        },
        rw (e, amount1_delta_up_lem q p l false hq hp hl.fits below),
        record {
          not_past = above;
          not_back = below;
          pays = pays;
          takes = div-mul-le_self (l * (p - q)) (2 ^ 96);
        },
        books_partial q (l * (p - q) / 2 ^ 96),
      )

  pub in_up_reached :
      p ≤ t
      → 0 < net a f
      → div_ceil (l * (t - p)) (2 ^ 96) ≤ net a f
      → (s : SwapStep) × (exact_in_reached p t f false
            (div_ceil (l * (t - p)) (2 ^ 96))
            (l * (t - p))
          ≡ ok s)
        × FundedUp p t l s
        × ExactInBooks t a f s
  unfolding exact_in_reached
  in_up_reached le pos reach =
      let m = div_ceil (l * (t - p)) (2 ^ 96) in
      let m_small : m ≤ 2 ^ 224 = amount1_small p t l true hp ht hl.fits le in
      let out = token0_span l p t / (p * t) in
      (
        record {
          sqrt_ratio_next_x96 = t;
          amount_in = m;
          amount_out = out;
          fee_amount = div_ceil (m * f.pips) f.complement;
        },
        rw (
          amount0_with_liquidity_lem p t (l * (t - p)) false hp ht
              (inr (product_le p t l true hp ht hl.fits le)),
          fee_on_exact_input_lem m f hf (not_max pos) (omega arith),
        ),
        record {
          not_past = omega arith;
          not_back = le;
          pays = le_mul_div_ceil (l * (t - p)) (2 ^ 96) (omega arith);
          takes = div-mul-le_self (token0_span l p t) (p * t);
        },
        books_reached m out pos reach,
      )

  pub in_up_partial :
      p ≤ t
      → 0 < net a f
      → net a f < div_ceil (l * (t - p)) (2 ^ 96)
      → (s : SwapStep) × (exact_in_partial p l a false (net a f) ≡ ok s)
        × FundedUp p t l s
        × ExactInBooks t a f s
  unfolding exact_in_partial
  in_up_partial le pos short =
      let room = fee_room a (net a f) f hf (omega arith) in
      let amount : IsAmount (net a f) = record { positive = pos; fits = omega (arith, ha.fits) } in
      let (q, e, above, below, pays) =
        token1_in_lem p t l (net a f) hp ht hl amount le
          (lt_of_lt_ceil (l * (t - p)) (2 ^ 96) (net a f) (omega arith) short) in
      let hq : IsPrice q = record { min_le = omega arith; le_max = omega arith } in
      let out = token0_span l p q / (p * q) in
      (
        record {
          sqrt_ratio_next_x96 = q;
          amount_in = net a f;
          amount_out = out;
          fee_amount = a - net a f;
        },
        rw (e, amount0_delta_up_lem p q l false hp hq hl.fits above),
        record {
          not_past = below;
          not_back = above;
          pays = pays;
          takes = div-mul-le_self (token0_span l p q) (p * q);
        },
        books_partial q out,
      )
