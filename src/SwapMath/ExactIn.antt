-- ===== src/SwapMath/ExactIn.antt =====
-- About `compute_exact_in` as a whole.
use rm_uniswap.Prelude.{
  ℕ, ◌-◌, ◌*◌, ◌^◌, ◌≤◌, ◌<◌, ◌≡◌, ap, arith, inl, inr, true, false, Bool, leb, ◌==◌, if◌then◌else◌,
  lt_or_ge, pos_nonzero, ==_iff, le→leb, lt→leb, div_ceil, Bool-cases, none,
}
use rm_uniswap.Error.{ok}
use rm_uniswap.Fee.{Fee}
use rm_uniswap.SqrtPrice.{IsPrice, new_non_zero}
use rm_uniswap.SqrtPriceMath.Next.{IsLiquidity, IsAmount}
use rm_uniswap.SqrtPriceMath.Amounts.{amount0_delta_up_lem, amount1_delta_up_lem}
use rm_uniswap.SqrtPriceMath.Direction.{token0_span}
use rm_uniswap.SwapMath.{
  SwapStep, compute_exact_in, exact_in_net, exact_in_reached, exact_in_partial, max_input,
}
use rm_uniswap.Fee.Protocol.{IsFee}
use rm_uniswap.SwapMath.Fees.{amount_less_fee_lem}
use rm_uniswap.SwapMath.Spec.{FundedDown, FundedUp, Funded, ExactInBooks}
use rm_uniswap.SwapMath.Net.{net}
use rm_uniswap.SwapMath.ExactInCases.{
  in_down_reached, in_down_partial, in_up_reached, in_up_partial,
}

module _ (p t l a : ℕ) (f : Fee) (hp : IsPrice p) (ht : IsPrice t) (hl : IsLiquidity l)
    (ha : IsAmount a) (hf : IsFee f) where
  -- The fee takes the whole input: the price stays.
  absorbed :
      (down : Bool)
      → net a f ≡ 0
      → compute_exact_in p t l a f down ≡ exact_in_net p t l a f down none
  unfolding compute_exact_in
  absorbed down z = rw (amount_less_fee_lem a f hf ha.fits, z)

  -- The branch by what the range takes.
  branches :
      (down : Bool) (m x : ℕ)
      → 0 < net a f
      → max_input p t l down ≡ ok (m, x)
      → compute_exact_in p t l a f down ≡ (
          if leb m (net a f)
          then exact_in_reached p t f down m x
          else exact_in_partial p l a down (net a f))
  unfolding compute_exact_in exact_in_net
  branches down m x pos e = rw (amount_less_fee_lem a f hf ha.fits) (go (net a f) pos)
    where
      go :
          (n : ℕ)
          → 0 < n
          → exact_in_net p t l a f down (new_non_zero n)
            ≡ (if leb m n then exact_in_reached p t f down m x else exact_in_partial p l a down n)
      go n h = rw (pos_nonzero n h, e)

  -- The fee takes it all: nothing moves, and everything is charged unless the range is empty.
  abbrev absorbed_step : SwapStep
  absorbed_step = record {
    sqrt_ratio_next_x96 = p;
    amount_in = 0;
    amount_out = 0;
    fee_amount = if p == t then 0 else a;
  }

  absorbed_lem : (down : Bool) → net a f ≡ 0 → compute_exact_in p t l a f down ≡ ok absorbed_step
  unfolding exact_in_net
  absorbed_lem down z = absorbed down z

  absorbed-ExactInBooks : ExactInBooks t a f absorbed_step
  absorbed-ExactInBooks = elim (Bool-cases (p == t)) [
    | inl same ↦ rw same (record {
      within = omega arith;
      used_up = inl ((==_iff p t).0 same);
      fee_due = omega arith;
    })
    | inr moved ↦
        rw moved
          (record { within = omega arith; used_up = inr (omega arith); fee_due = omega arith })
  ]

  absorbed-Funded : Funded p t l absorbed_step
  absorbed-Funded =
      let still : p - p ≡ 0 = omega arith in
      let none_due : l * (p - p) ≡ 0 = omega (arith, ap (λ (u : ℕ). l * u) still) in
      elim (lt_or_ge p t) [
        | inl up ↦ inr (
          up,
          record {
            not_past = omega arith;
            not_back = omega arith;
            pays = omega arith;
            takes = omega arith;
          },
        )
        | inr down ↦ inl (
          down,
          record {
            not_past = down;
            not_back = omega arith;
            pays = omega arith;
            takes = omega arith;
          },
        )
      ]

  moving_down :
      t ≤ p
      → 0 < net a f
      → (s : SwapStep) × (compute_exact_in p t l a f true ≡ ok s)
        × FundedDown p t l s
        × ExactInBooks t a f s
  unfolding max_input
  moving_down le pos =
      let m = div_ceil (token0_span l t p) (t * p) in
      let split =
        branches true m (l * (p - t)) pos (amount0_delta_up_lem t p l true ht hp hl.fits le) in
      elim (lt_or_ge (net a f) m) [
        | inl short ↦
            let (s, e, funded, books) = in_down_partial p t l a f hp ht hl ha hf le pos short in
            (s, rw (split, lt→leb m (net a f) short) e, funded, books)
        | inr reach ↦
            let (s, e, funded, books) = in_down_reached p t l a f hp ht hl ha hf le pos reach in
            (s, rw (split, le→leb m (net a f) reach) e, funded, books)
      ]

  moving_up :
      p ≤ t
      → 0 < net a f
      → (s : SwapStep) × (compute_exact_in p t l a f false ≡ ok s)
        × FundedUp p t l s
        × ExactInBooks t a f s
  unfolding max_input
  moving_up le pos =
      let m = div_ceil (l * (t - p)) (2 ^ 96) in
      let split =
        branches false m (l * (t - p)) pos (amount1_delta_up_lem p t l true hp ht hl.fits le) in
      elim (lt_or_ge (net a f) m) [
        | inl short ↦
            let (s, e, funded, books) = in_up_partial p t l a f hp ht hl ha hf le pos short in
            (s, rw (split, lt→leb m (net a f) short) e, funded, books)
        | inr reach ↦
            let (s, e, funded, books) = in_up_reached p t l a f hp ht hl ha hf le pos reach in
            (s, rw (split, le→leb m (net a f) reach) e, funded, books)
      ]

  pub exact_in_lem :
      (s : SwapStep) × (compute_exact_in p t l a f (leb t p) ≡ ok s)
      × Funded p t l s
      × ExactInBooks t a f s
  exact_in_lem = elim (lt_or_ge 0 (net a f)) [
    | inr z ↦ (
      absorbed_step,
      absorbed_lem (leb t p) (omega arith),
      absorbed-Funded,
      absorbed-ExactInBooks,
    )
    | inl pos ↦ elim (lt_or_ge p t) [
      | inr le ↦
          let (s, e, funded, books) = moving_down le pos in
          (s, rw (le→leb t p le) e, inl (le, funded), books)
      | inl lt ↦
          let (s, e, funded, books) = moving_up (omega arith) pos in
          (s, rw (lt→leb t p lt) e, inr (lt, funded), books)
    ]
  ]
