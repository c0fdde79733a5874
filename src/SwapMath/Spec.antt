-- ===== src/SwapMath/Spec.antt =====
-- What a swap step owes to both sides: the price moves towards the target, the input pays for the
-- move, the output takes no more than the move frees, and the fee is at least its share of the input.
use rm_uniswap.Prelude.{ℕ, ◌+◌, ◌-◌, ◌*◌, ◌^◌, ◌≤◌, ◌<◌, ◌≡◌, ◌⊎◌}
use rm_uniswap.Fee.{Fee}
use rm_uniswap.SqrtPriceMath.Direction.{token0_span}
use rm_uniswap.SwapMath.{SwapStep}

-- The price falls from `p` towards `t`: token0 goes in, token1 goes out.
pub record FundedDown (p t l : ℕ) (s : SwapStep) : Type 0 where
  pub not_past : t ≤ s.sqrt_ratio_next_x96
  pub not_back : s.sqrt_ratio_next_x96 ≤ p
  pub pays : token0_span l s.sqrt_ratio_next_x96 p ≤ s.amount_in * (s.sqrt_ratio_next_x96 * p)
  pub takes : s.amount_out * 2 ^ 96 ≤ l * (p - s.sqrt_ratio_next_x96)

-- The price rises from `p` towards `t`: token1 goes in, token0 goes out.
pub record FundedUp (p t l : ℕ) (s : SwapStep) : Type 0 where
  pub not_past : s.sqrt_ratio_next_x96 ≤ t
  pub not_back : p ≤ s.sqrt_ratio_next_x96
  pub pays : l * (s.sqrt_ratio_next_x96 - p) ≤ s.amount_in * 2 ^ 96
  pub takes : s.amount_out * (p * s.sqrt_ratio_next_x96) ≤ token0_span l p s.sqrt_ratio_next_x96

-- The direction is what the two prices say.
abbrev pub Funded : ℕ → ℕ → ℕ → SwapStep → Type 0
Funded p t l s = (t ≤ p) × FundedDown p t l s ⊎ (p < t) × FundedUp p t l s

-- The fee covers its share of the whole input.
abbrev pub FeeDue : Fee → SwapStep → Type 0
FeeDue f s = s.amount_in * f.pips ≤ s.fee_amount * f.complement

-- An exact input of `a` is never exceeded, and is used up unless the target is reached.
pub record ExactInBooks (t a : ℕ) (f : Fee) (s : SwapStep) : Type 0 where
  pub within : s.amount_in + s.fee_amount ≤ a
  pub used_up : (s.sqrt_ratio_next_x96 ≡ t) ⊎ (s.amount_in + s.fee_amount ≡ a)
  pub fee_due : FeeDue f s

-- An exact output of `a` is never exceeded, and is delivered unless the target is reached.
pub record ExactOutBooks (t a : ℕ) (f : Fee) (s : SwapStep) : Type 0 where
  pub within : s.amount_out ≤ a
  pub delivered : (s.sqrt_ratio_next_x96 ≡ t) ⊎ (s.amount_out ≡ a)
  pub fee_due : FeeDue f s
