-- ===== src/SwapMath/Fees.antt =====
-- About `amount_less_fee_exact_in` and `fee_on_exact_input`.
use native.Mathlib.Nat.{mul-div_cancel}
use rm_uniswap.Prelude.{
  ℕ, ◌*◌, ◌/◌, ◌^◌, ◌<◌, ◌≡◌, refl, ap, arith, inl, inr, false, ◌==◌, lt_or_ge, pos_nonzero,
  div_ceil, div_ceil_le, mul_le, div_lt_of_lt_mul,
}
use rm_uniswap.Error.{ok}
use rm_uniswap.Fee.{Fee}
use rm_uniswap.Fee.Protocol.{IsFee}
use rm_uniswap.Ratio.{exact_floor_ok, exact_ceil_ok}
use rm_uniswap.SmallRatio.Exact.{mul_div_u32_floor_lem, mul_div_u32_ceil_lem}
use rm_uniswap.SwapMath.{amount_less_fee_exact_in, fee_on_exact_input}

pub max_test : (n : ℕ) → n < 1_000_000 → (n == 1_000_000) ≡ false
max_test n h = ground arith

pub amount_less_fee_lem :
    (a : ℕ) (f : Fee)
    → IsFee f
    → a < 2 ^ 256
    → amount_less_fee_exact_in a f ≡ ok (a * f.complement / 1_000_000)
unfolding amount_less_fee_exact_in
amount_less_fee_lem a f hf ha = elim (lt_or_ge 0 f.pips) [
  | inr none_due ↦
      let z : f.pips ≡ 0 = omega arith in
      let c : f.complement ≡ 1_000_000 = omega arith in
      rw (z, c, mul-div_cancel a {n = 1_000_000} (omega arith))
  | inl due ↦ rw (pos_nonzero f.pips due) (elim (lt_or_ge f.pips 1_000_000) [
    | inr all_due ↦
        let m : f.pips ≡ 1_000_000 = omega arith in
        let c : f.complement ≡ 0 = omega arith in
        let nothing : a * 0 ≡ 0 = omega arith in rw (m, c, nothing) refl
    | inl some_left ↦
        let q = a * f.complement / 1_000_000 in
        let fits : q < 2 ^ 256 =
          div_lt_of_lt_mul (a * f.complement) 1_000_000 (2 ^ 256) (omega arith)
            (omega (arith, mul_le a f.complement a 1_000_000 (omega arith) (omega arith))) in
        rw
          (
            max_test f.pips some_left,
            mul_div_u32_floor_lem a f.complement 1_000_000 ha (omega arith) (omega arith),
          )
          (exact_floor_ok (a * f.complement) 1_000_000 (omega arith) fits)
  ])
]

pub fee_on_exact_input_lem :
    (a : ℕ) (f : Fee)
    → IsFee f
    → f.pips < 1_000_000
    → a < 2 ^ 230
    → fee_on_exact_input a f ≡ ok (div_ceil (a * f.pips) f.complement)
unfolding fee_on_exact_input
fee_on_exact_input_lem a f hf some_left ha =
    let q = div_ceil (a * f.pips) f.complement in
    let none_due : a * f.pips ≡ 0 → q ≡ 0 =
      λ z. omega (arith, div_ceil_le (a * f.pips) f.complement 0 (omega arith) (omega arith)) in
    elim (lt_or_ge 0 a) [
      | inr z ↦
          let a_zero : a ≡ 0 = omega arith in
          rw (none_due (omega (arith, ap (λ (t : ℕ). t * f.pips) a_zero)), a_zero) refl
      | inl a_pos ↦ elim (lt_or_ge 0 f.pips) [
        | inr z ↦
            let p_zero : f.pips ≡ 0 = omega arith in
            rw (none_due (omega (arith, ap (λ (t : ℕ). a * t) p_zero)), pos_nonzero a a_pos, p_zero)
              refl
        | inl p_pos ↦
            let n_le = mul_le a f.pips (2 ^ 230) 1_000_000 (omega arith) (omega arith) in
            let n_le_d =
              mul_le (a * f.pips) 1 (a * f.pips) f.complement (omega arith) (omega arith) in
            let fits : q < 2 ^ 256 = omega (
              arith,
              div_ceil_le (a * f.pips) f.complement (a * f.pips) (omega arith) (omega arith),
            ) in
            rw
              (
                pos_nonzero a a_pos,
                pos_nonzero f.pips p_pos,
                max_test f.pips some_left,
                mul_div_u32_ceil_lem a f.pips f.complement (omega arith) (omega arith)
                    (omega arith),
              )
              (exact_ceil_ok (a * f.pips) f.complement (omega arith) fits)
      ]
    ]
