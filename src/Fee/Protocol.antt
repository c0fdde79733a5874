-- ===== src/Fee/Protocol.antt =====
-- `calculate_swap_fee`: the effective fee of one direction.
use rm_uniswap.Prelude.{
  ℕ, ◌+◌, ◌-◌, ◌*◌, ◌/◌, ◌≤◌, ◌≡◌, ap, arith, ==_iff, Bool, Bool-cases, inl, inr, ◌==◌, le→ltb,
  le→leb,
}
use rm_uniswap.Error.{ok}
use rm_uniswap.Fee.{Fee, ProtocolFee, calculate_swap_fee, get_fee}

-- What every fee from `Fee::new` satisfies.
pub record IsFee (f : Fee) : Type 0 where
  pub sum : f.pips + f.complement ≡ 1_000_000

-- The effective fee `f` of an LP fee `l` and a protocol fee `p`, in pips: the protocol takes its part
-- first, and the LP fee is taken of the rest, rounded up.
pub record IsCombined (p l : ℕ) (f : Fee) : Type 0 where
  pub fee : IsFee f
  pub lp_le : l ≤ f.pips
  pub protocol_le : p ≤ f.pips
  pub le_sum : f.pips ≤ p + l
  pub exact : f.complement ≡ (1_000_000 - p) * (1_000_000 - l) / 1_000_000

-- The complements of a sum of fees, less the overlap, multiply.
complements :
    (p a l b : ℕ)
    → p + a ≡ 1_000_000
    → l + b ≡ 1_000_000
    → (a * b / 1_000_000 + l ≡ a + p * l / 1_000_000)
      × (p * l / 1_000_000 ≤ l)
      × (p * l / 1_000_000 ≤ p)
complements p a l b hp hl =
    let e1 : p * l + a * l ≡ 1_000_000 * l = omega (arith, ap (λ (t : ℕ). t * l) hp) in
    let e2 : a * l + a * b ≡ 1_000_000 * a = omega (arith, ap (λ (t : ℕ). a * t) hl) in
    let e3 : p * l + p * b ≡ 1_000_000 * p = omega (arith, ap (λ (t : ℕ). p * t) hl) in omega arith

overlap_removed-IsCombined :
    (p l : ℕ)
    → p ≤ 1_000_000
    → l ≤ 1_000_000
    → (let c = p + l - p * l / 1_000_000 in
        (c ≤ 1_000_000) × IsCombined p l (record { pips = c; complement = 1_000_000 - c }))
overlap_removed-IsCombined p l hp hl =
    let facts = complements p (1_000_000 - p) l (1_000_000 - l) (omega arith) (omega arith) in
    (
      omega arith,
      record {
        fee = record { sum = omega arith };
        lp_le = omega arith;
        protocol_le = omega arith;
        le_sum = omega arith;
        exact = omega arith;
      },
    )

-- For a protocol fee of at most 1,000,000 pips and an LP fee of at most 100% with its complement
-- there is no error, and the result is such a fee too: at least each of the two, at most their sum,
-- and its complement is the product of theirs over 1,000,000, rounded down.
pub calculate_swap_fee-IsCombined :
    (p : ProtocolFee) (z : Bool) (l : Fee)
    → get_fee p z ≤ 1_000_000
    → IsFee l
    → (f : Fee) × (calculate_swap_fee p z l ≡ ok f) × IsCombined (get_fee p z) l.pips f
unfolding calculate_swap_fee
calculate_swap_fee-IsCombined p z l hp hl =
    let g = get_fee p z in
    let facts = overlap_removed-IsCombined g l.pips hp (omega arith) in
    elim (Bool-cases (g == 0)) [
      | inl none_due ↦
          let e : g ≡ 0 = (==_iff g 0).0 none_due in
          (
            l,
            rw (le→leb l.pips 1_000_000 (omega arith), none_due),
            rw e (record {
              fee = hl;
              lp_le = omega arith;
              protocol_le = omega arith;
              le_sum = omega arith;
              exact = omega arith;
            }),
          )
      | inr due ↦ (
        record {
          pips = g + l.pips - g * l.pips / 1_000_000;
          complement = 1_000_000 - (g + l.pips - g * l.pips / 1_000_000);
        },
        rw (
          le→leb l.pips 1_000_000 (omega arith),
          due,
          le→ltb 1_000_000 (g + l.pips - g * l.pips / 1_000_000) facts.0,
        ),
        facts.1,
      )
    ]
