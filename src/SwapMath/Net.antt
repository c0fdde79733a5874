-- ===== src/SwapMath/Net.antt =====
-- About the input that is left after the fee.
use native.Mathlib.Nat.{div-mul-le_self}
use rm_uniswap.Prelude.{
  ℕ, ◌+◌, ◌-◌, ◌*◌, ◌/◌, ◌≤◌, ◌<◌, ◌≡◌, ap, arith, inl, inr, lt_or_ge, div_ceil, div_ceil_le,
  mul_le,
}
use rm_uniswap.Fee.{Fee}
use rm_uniswap.SqrtPriceMath.Direction.{span_lem}
use rm_uniswap.Fee.Protocol.{IsFee}

-- Less than a quotient rounded up is less than the quotient.
pub lt_of_lt_ceil : (n d k : ℕ) → 0 < d → k < div_ceil n d → k * d < n
lt_of_lt_ceil n d k pos h = elim (lt_or_ge (k * d) n) [
  | inl lt ↦ lt
  | inr ge ↦ absurd (omega (arith, div_ceil_le n d k pos ge))
]

-- The input after the fee.
abbrev pub net : ℕ → Fee → ℕ
net a f = a * f.complement / 1_000_000

pub net_le : (a : ℕ) (f : Fee) → IsFee f → net a f * 1_000_000 ≤ a * f.complement
net_le a f hf = div-mul-le_self (a * f.complement) 1_000_000

-- What is left of an input of at most the net amount covers the fee on it.
pub fee_room :
    (a i : ℕ) (f : Fee) → IsFee f → i ≤ net a f → (i ≤ a) × (i * f.pips ≤ (a - i) * f.complement)
fee_room a i f hf le =
    let scaled : i * 1_000_000 ≤ a * f.complement = omega (arith, net_le a f hf) in
    let whole : i * f.pips + i * f.complement ≡ i * 1_000_000 =
      omega (arith, ap (λ (t : ℕ). i * t) hf.sum) in
    let le_a : i ≤ a =
      omega (arith, mul_le a f.complement a 1_000_000 (omega arith) (omega arith)) in
    let parts : (a - i) * f.complement + i * f.complement ≡ a * f.complement =
      omega (arith, span_lem f.complement i a le_a) in
    (le_a, omega arith)
