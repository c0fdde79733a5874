-- ===== src/BalanceDelta/Settle.antt =====
-- About `checked_sub` and `checked_add`: the remainder of a delta and the part taken out of it.
use rm_uniswap.Prelude.{◌-◌, ◌^◌, ◌≡◌, refl, sym, arith, inl, inr, true, Bool-cases, ◌&&◌, some}
use rm_uniswap.Prelude.Int.{ℤ, pos, negsuc, ltb_ℤ, leb_ℤ, ◌+ℤ◌, ◌-ℤ◌}
use rm_uniswap.Error.{ok, ok_or, i128_overflow, >>=-eq-ok, ok_injective}
use rm_uniswap.BalanceDelta.{BalanceDelta, checked_add, checked_sub, fit_i128}

abbrev pub IsI128 : ℤ → Type 0
IsI128 z = (leb_ℤ (negsuc (2 ^ 127 - 1)) z && ltb_ℤ z (pos (2 ^ 127))) ≡ true

fit-IsI128 : (z : ℤ) → IsI128 z → fit_i128 z ≡ some z
fit-IsI128 z h = rw h

fit_value : (z r : ℤ) → ok_or (fit_i128 z) i128_overflow ≡ ok r → r ≡ z
fit_value z r e = elim (Bool-cases (leb_ℤ (negsuc (2 ^ 127 - 1)) z && ltb_ℤ z (pos (2 ^ 127)))) [
  | inl fits ↦ sym (ok_injective (rw fits at e))
  | inr wide ↦ cc (rw wide at e)
]

sub_add : (x y : ℤ) → (x -ℤ y) +ℤ y ≡ x
unfolding ◌+ℤ◌ ◌-ℤ◌
sub_add x y = ground arith

-- For a delta whose amounts are in the range of an `i128`: where `checked_sub` takes another delta
-- out of it, `checked_add` of that other delta to the remainder succeeds and returns the whole.
pub checked_add-checked_sub :
    (d taken rest : BalanceDelta)
    → IsI128 d.amount0
    → IsI128 d.amount1
    → checked_sub d taken ≡ ok rest
    → checked_add rest taken ≡ ok d
unfolding checked_add checked_sub
checked_add-checked_sub d taken rest h0 h1 e =
    let (r0, e0, next) =
      >>=-eq-ok (ok_or (fit_i128 (d.amount0 -ℤ taken.amount0)) i128_overflow) _ e in
    let (r1, e1, built) =
      >>=-eq-ok (ok_or (fit_i128 (d.amount1 -ℤ taken.amount1)) i128_overflow) _ next in
    rw
      (
        sym (ok_injective built),
        fit_value (d.amount0 -ℤ taken.amount0) r0 e0,
        fit_value (d.amount1 -ℤ taken.amount1) r1 e1,
        sub_add d.amount0 taken.amount0,
        sub_add d.amount1 taken.amount1,
        fit-IsI128 d.amount0 h0,
        fit-IsI128 d.amount1 h1,
      )
      refl
