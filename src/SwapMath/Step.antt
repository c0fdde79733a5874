-- ===== src/SwapMath/Step.antt =====
-- About `compute_swap_step` on every amount.
use rm_uniswap.Prelude.{
  ℕ, suc, ◌+◌, ◌^◌, ◌≤◌, ◌<◌, ◌≡◌, ◌∙◌, refl, ap, arith, lt→ltb, le→ltb, lt_or_ge, leb, pos_nonzero,
  ◌⊎◌, inl, inr,
}
use rm_uniswap.Prelude.Int.{ℤ, pos, negsuc, abs, pos_part}
use rm_uniswap.Error.{ok, err, max_fee_exact_out}
use rm_uniswap.Fee.{Fee}
use rm_uniswap.SqrtPrice.{IsPrice}
use rm_uniswap.SqrtPriceMath.Next.{IsLiquidity}
use rm_uniswap.SwapMath.{SwapStep, compute_swap_step, compute_exact_in, compute_exact_out}
use rm_uniswap.Fee.Protocol.{IsFee}
use rm_uniswap.SwapMath.Fees.{max_test}
use rm_uniswap.SwapMath.Spec.{Funded, ExactInBooks, ExactOutBooks}
use rm_uniswap.SwapMath.ExactIn.{exact_in_lem}
use rm_uniswap.SwapMath.ExactOut.{exact_out_lem}

step_exact_in :
    (p t l n : ℕ) (f : Fee)
    → compute_swap_step p t l (negsuc n) f ≡ compute_exact_in p t l (suc n) f (leb t p)
unfolding compute_swap_step
step_exact_in p t l n f =
    let whole : 0 + suc n ≡ suc n = omega arith in
    rw (whole, pos_nonzero (suc n) (omega arith), lt→ltb 0 (suc n) (omega arith))

step_exact_out :
    (p t l a : ℕ) (f : Fee)
    → 0 < a
    → f.pips < 1_000_000
    → compute_swap_step p t l (pos a) f ≡ compute_exact_out p t l a f (leb t p)
unfolding compute_swap_step
step_exact_out p t l a f h below_max =
    let whole : a + 0 ≡ a = omega arith in
    rw (whole, pos_nonzero a h, le→ltb a 0 (omega arith), max_test f.pips below_max)

-- A step that moves nothing.
abbrev pub zero_step : ℕ → SwapStep
zero_step p = record { sqrt_ratio_next_x96 = p; amount_in = 0; amount_out = 0; fee_amount = 0 }

step_zero : (p t l : ℕ) (f : Fee) → compute_swap_step p t l (pos 0) f ≡ ok (zero_step p)
unfolding compute_swap_step
step_zero p t l f = refl

pub step_max_fee :
    (p t l a : ℕ) (f : Fee)
    → 0 < a
    → f.pips ≡ 1_000_000
    → compute_swap_step p t l (pos a) f ≡ err max_fee_exact_out
unfolding compute_swap_step
step_max_fee p t l a f h m =
    let whole : a + 0 ≡ a = omega arith in rw (whole, pos_nonzero a h, le→ltb a 0 (omega arith), m)

-- For any two prices in range, a nonzero 128-bit liquidity, a fee of at most 100% with its
-- complement, and an exact input of magnitude `n + 1` up to 2^255, the step succeeds. The next price
-- lies between the current price and the target, the input pays for the move, the output takes at
-- most what the move frees, input and fee together stay within the amount and equal it unless the
-- target is reached, and the fee is at least its share of the input.
pub compute_swap_step-ExactInBooks :
    (p t l n : ℕ) (f : Fee)
    → IsPrice p
    → IsPrice t
    → IsLiquidity l
    → IsFee f
    → n < 2 ^ 255
    → (s : SwapStep) × (compute_swap_step p t l (negsuc n) f ≡ ok s)
      × Funded p t l s
      × ExactInBooks t (suc n) f s
compute_swap_step-ExactInBooks p t l n f hp ht hl hf hn =
    let (s, e, funded, books) =
      exact_in_lem p t l (suc n) f hp ht hl (record { positive = omega arith; fits = omega arith })
        hf in
    (s, step_exact_in p t l n f ∙ e, funded, books)

-- For any two prices in range, a nonzero 128-bit liquidity, a fee below 100% with its complement,
-- and a nonzero exact output `a` below 2^256, the step succeeds. The next price lies between the
-- current price and the target, the input pays for the move, the output takes at most what the move
-- frees, the output is at most `a` and equals it unless the target is reached, and the fee is at
-- least its share of the input.
pub compute_swap_step-ExactOutBooks :
    (p t l a : ℕ) (f : Fee)
    → IsPrice p
    → IsPrice t
    → IsLiquidity l
    → IsFee f
    → f.pips < 1_000_000
    → 0 < a
    → a < 2 ^ 256
    → (s : SwapStep) × (compute_swap_step p t l (pos a) f ≡ ok s)
      × Funded p t l s
      × ExactOutBooks t a f s
compute_swap_step-ExactOutBooks p t l a f hp ht hl hf below_max a_pos ha =
    let (s, e, funded, books) =
      exact_out_lem p t l a f hp ht hl (record { positive = a_pos; fits = omega arith }) hf
        below_max in
    (s, step_exact_out p t l a f a_pos below_max ∙ e, funded, books)

-- For any two prices in range, a nonzero 128-bit liquidity, a fee of at most 100% with its
-- complement and an amount of magnitude at most 2^255, the step returns a value, at a fee below 100%
-- or an amount that is not positive, or it fails with `max_fee_exact_out`, at a positive amount and
-- a fee of exactly 100%.
pub compute_swap_step_total :
    (p t l : ℕ) (amount : ℤ) (f : Fee)
    → IsPrice p
    → IsPrice t
    → IsLiquidity l
    → IsFee f
    → abs amount ≤ 2 ^ 255
    → ((s : SwapStep) × (compute_swap_step p t l amount f ≡ ok s)
        × ((f.pips < 1_000_000) ⊎ (pos_part amount ≡ 0)))
      ⊎ (compute_swap_step p t l amount f ≡ err max_fee_exact_out)
        × (f.pips ≡ 1_000_000)
        × (0 < pos_part amount)
compute_swap_step_total p t l (negsuc n) f hp ht hl hf hn =
    let (s, e, funded, books) =
      compute_swap_step-ExactInBooks p t l n f hp ht hl hf (omega arith) in
    inl (s, e, inr refl)
compute_swap_step_total p t l (pos a) f hp ht hl hf ha = elim (lt_or_ge 0 a) [
  | inr z ↦
      let none : a ≡ 0 = omega arith in
      inl (
        zero_step p,
        ap (λ (n : ℕ). compute_swap_step p t l (pos n) f) none ∙ step_zero p t l f,
        inr none,
      )
  | inl a_pos ↦ elim (lt_or_ge f.pips 1_000_000) [
    | inl below_max ↦
        let (s, e, funded, books) =
          compute_swap_step-ExactOutBooks p t l a f hp ht hl hf below_max a_pos (omega arith) in
        inl (s, e, inl below_max)
    | inr ge ↦
        let all_due : f.pips ≡ 1_000_000 = omega arith in
        inr (step_max_fee p t l a f a_pos all_due, all_due, a_pos)
  ]
]
