-- ===== src/BalanceDelta/Principal.antt =====
-- About `from_liquidity_principal`: what a change of liquidity moves.
use rm_uniswap.Prelude.{
  ℕ, suc, ◌+◌, ◌*◌, ◌^◌, ◌≤◌, ◌<◌, ◌≡◌, refl, sym, ◌∙◌, arith, inl, inr, true, false, Bool, ltb,
  leb, lt→leb, le→leb, Bool-cases, div_ceil, div_ceil-cases,
}
use rm_uniswap.Prelude.Int.{ℤ, pos, negsuc, neg, pos_part, neg_part, ltb_ℤ}
use rm_uniswap.Error.{Result, ok, ◌>>=◌, >>=-eq-ok, ok_injective}
use rm_uniswap.BalanceDelta.{
  BalanceDelta, from_liquidity_principal, amount0_delta_for_liquidity_change,
  amount1_delta_for_liquidity_change,
}
use rm_uniswap.BalanceDelta.Change.{signed_amount, liquidity_change_lem}
use rm_uniswap.SqrtPrice.{IsPrice}
use rm_uniswap.SqrtPriceMath.Amounts.{rounded, distance}

-- `paid` is what a deposit owes, `received` what the withdrawal of the same liquidity returns: the
-- signs are those, the deposit covers the withdrawal, and by at most one unit.
pub record Covers (paid received : ℤ) : Type 0 where
  pub owed : pos_part paid ≡ 0
  pub due : neg_part received ≡ 0
  pub covers : pos_part received ≤ neg_part paid
  pub tight : neg_part paid ≤ pos_part received + 1

neg_parts : (x : ℕ) → (pos_part (neg (pos x)) ≡ 0) × (neg_part (neg (pos x)) ≡ x)
neg_parts x = ground arith

paid_lem : (x : ℕ) (z : ℤ) → signed_amount true x ≡ ok z → z ≡ neg (pos x)
paid_lem x z e = elim (Bool-cases (leb x (2 ^ 127))) [
  | inl fits ↦ sym (ok_injective (rw fits at e))
  | inr wide ↦ cc (rw wide at e)
]

received_lem : (x : ℕ) (z : ℤ) → signed_amount false x ≡ ok z → z ≡ pos x
received_lem x z e = elim (Bool-cases (ltb x (2 ^ 127))) [
  | inl fits ↦ sym (ok_injective (rw fits at e))
  | inr wide ↦ cc (rw wide at e)
]

rounded-Covers :
    (n d : ℕ) (paid received : ℤ)
    → signed_amount true (rounded true n d) ≡ ok paid
    → signed_amount false (rounded false n d) ≡ ok received
    → Covers paid received
rounded-Covers n d paid received e f =
    let (p, m) = neg_parts (div_ceil n d) in
    rw (paid_lem (rounded true n d) paid e, received_lem (rounded false n d) received f)
      (elim (div_ceil-cases n d) [
        | inl (z, same) ↦ record { owed = p; due = refl; covers = omega arith; tight = omega arith }
        | inr (z, more) ↦ record { owed = p; due = refl; covers = omega arith; tight = omega arith }
      ])

module _ (a b l : ℕ) (ha : IsPrice a) (hb : IsPrice b) (hl : l < 2 ^ 128) (paid received : ℤ) where
  change0-Covers :
      amount0_delta_for_liquidity_change a b l true ≡ ok paid
      → amount0_delta_for_liquidity_change a b l false ≡ ok received
      → Covers paid received
  change0-Covers e f =
      rounded-Covers (l * distance a b * 2 ^ 96) (a * b) paid received
        (sym (liquidity_change_lem a b l ha hb hl true).0 ∙ e)
        (sym (liquidity_change_lem a b l ha hb hl false).0 ∙ f)

  change1-Covers :
      amount1_delta_for_liquidity_change a b l true ≡ ok paid
      → amount1_delta_for_liquidity_change a b l false ≡ ok received
      → Covers paid received
  change1-Covers e f =
      rounded-Covers (l * distance a b) (2 ^ 96) paid received
        (sym (liquidity_change_lem a b l ha hb hl true).1 ∙ e)
        (sym (liquidity_change_lem a b l ha hb hl false).1 ∙ f)

nothing-Covers : Covers (pos 0) (pos 0)
nothing-Covers = record { owed = refl; due = refl; covers = omega arith; tight = omega arith }

module _ (current lower upper l : ℕ) where
  -- The three cases of the current tick against the range, with a rounding.
  abbrev by_range : Bool → Bool → Bool → Result BalanceDelta
  by_range true inside up = amount0_delta_for_liquidity_change lower upper l up >>= λ a0.
      ok (record { amount0 = a0; amount1 = pos 0 })
  by_range false true up = amount0_delta_for_liquidity_change current upper l up >>= λ a0.
      amount1_delta_for_liquidity_change lower current l up >>= λ a1.
      ok (record { amount0 = a0; amount1 = a1 })
  by_range false false up = amount1_delta_for_liquidity_change lower upper l up >>= λ a1.
      ok (record { amount0 = pos 0; amount1 = a1 })

  by_range-Covers :
      (below inside : Bool) (paid received : BalanceDelta)
      → IsPrice current
      → IsPrice lower
      → IsPrice upper
      → l < 2 ^ 128
      → by_range below inside true ≡ ok paid
      → by_range below inside false ≡ ok received
      → Covers paid.amount0 received.amount0 × Covers paid.amount1 received.amount1
  by_range-Covers true inside paid received hc hl hu small e f =
      let (p, ep, built_p) =
        >>=-eq-ok (amount0_delta_for_liquidity_change lower upper l true) _ e in
      let (r, er, built_r) =
        >>=-eq-ok (amount0_delta_for_liquidity_change lower upper l false) _ f in
      rw (sym (ok_injective built_p), sym (ok_injective built_r))
        (change0-Covers lower upper l hl hu small p r ep er, nothing-Covers)
  by_range-Covers false true paid received hc hl hu small e f =
      let (p, ep, next_p) =
        >>=-eq-ok (amount0_delta_for_liquidity_change current upper l true) _ e in
      let (r, er, next_r) =
        >>=-eq-ok (amount0_delta_for_liquidity_change current upper l false) _ f in
      let (p1, ep1, built_p) =
        >>=-eq-ok (amount1_delta_for_liquidity_change lower current l true) _ next_p in
      let (r1, er1, built_r) =
        >>=-eq-ok (amount1_delta_for_liquidity_change lower current l false) _ next_r in
      rw (sym (ok_injective built_p), sym (ok_injective built_r))
        (
          change0-Covers current upper l hc hu small p r ep er,
          change1-Covers lower current l hl hc small p1 r1 ep1 er1,
        )
  by_range-Covers false false paid received hc hl hu small e f =
      let (p, ep, built_p) =
        >>=-eq-ok (amount1_delta_for_liquidity_change lower upper l true) _ e in
      let (r, er, built_r) =
        >>=-eq-ok (amount1_delta_for_liquidity_change lower upper l false) _ f in
      rw (sym (ok_injective built_p), sym (ok_injective built_r))
        (nothing-Covers, change1-Covers lower upper l hl hu small p r ep er)

module _ (t lo hi : ℤ) (current lower upper n : ℕ) where
  deposit :
      from_liquidity_principal t lo hi current lower upper (pos (suc n))
      ≡ by_range current lower upper (suc n) (ltb_ℤ t lo) (ltb_ℤ t hi) true
  unfolding from_liquidity_principal
  deposit =
      let whole : suc n + 0 ≡ suc n = omega arith in
      rw (whole, le→leb 0 (suc n) (omega arith))
        (elim (Bool-cases (ltb_ℤ t lo)) [
          | inl e ↦ rw e
          | inr e ↦ rw e (elim (Bool-cases (ltb_ℤ t hi)) [ inl i ↦ rw i | inr i ↦ rw i ])
        ])

  withdrawal :
      from_liquidity_principal t lo hi current lower upper (negsuc n)
      ≡ by_range current lower upper (suc n) (ltb_ℤ t lo) (ltb_ℤ t hi) false
  unfolding from_liquidity_principal
  withdrawal =
      let whole : 0 + suc n ≡ suc n = omega arith in
      rw (whole, lt→leb (suc n) 0 (omega arith))
        (elim (Bool-cases (ltb_ℤ t lo)) [
          | inl e ↦ rw e
          | inr e ↦ rw e (elim (Bool-cases (ltb_ℤ t hi)) [ inl i ↦ rw i | inr i ↦ rw i ])
        ])

-- For prices in range, any ticks and a liquidity `suc n` of at most 2^127: if its deposit and its
-- withdrawal at the same ticks and prices both succeed, then in each token the deposit is not
-- positive, the withdrawal is not negative, and the deposit covers the withdrawal by at most one
-- unit.
pub from_liquidity_principal-Covers :
    (t lo hi : ℤ) (current lower upper n : ℕ) (paid received : BalanceDelta)
    → IsPrice current
    → IsPrice lower
    → IsPrice upper
    → n < 2 ^ 127
    → from_liquidity_principal t lo hi current lower upper (pos (suc n)) ≡ ok paid
    → from_liquidity_principal t lo hi current lower upper (negsuc n) ≡ ok received
    → Covers paid.amount0 received.amount0 × Covers paid.amount1 received.amount1
from_liquidity_principal-Covers t lo hi current lower upper n paid received hc hl hu hn e f =
    by_range-Covers current lower upper (suc n) (ltb_ℤ t lo) (ltb_ℤ t hi) paid received hc hl hu
      (omega arith) (sym (deposit t lo hi current lower upper n) ∙ e)
      (sym (withdrawal t lo hi current lower upper n) ∙ f)
