-- ===== src/SwapLoop/Step.antt =====
-- About one step of the loop: `compute_swap_step` that returned, and the booking of its amounts.
use rm_uniswap.Prelude.{
  ℕ, suc, ◌+◌, ◌-◌, ◌^◌, ◌≤◌, ◌<◌, ◌≡◌, ◌⊎◌, inl, inr, sym, ◌∙◌, arith, true, false, lt_or_ge, ltb,
  lt→ltb, le→ltb, Bool-cases, ◌&&◌,
}
use rm_uniswap.Prelude.Int.{
  ℤ, pos, negsuc, abs, pos_part, neg_part, leb_ℤ, ltb_ℤ, ◌+ℤ◌, ◌-ℤ◌, +ℤ_parts, -ℤ_parts,
  parts_disjoint,
}
use rm_uniswap.Error.{ok, Error, amount_overflow, ok_or, ◌>>=◌, >>=-eq-ok, ok_injective}
use rm_uniswap.Fee.{Fee}
use rm_uniswap.Fee.Protocol.{IsFee}
use rm_uniswap.SqrtPrice.{IsPrice}
use rm_uniswap.SqrtPriceMath.Next.{IsLiquidity}
use rm_uniswap.SwapLoop.{book_amounts, to_i256, fit_i256}
use rm_uniswap.SwapMath.{SwapStep, compute_swap_step}
use rm_uniswap.SwapMath.Spec.{Funded, ExactInBooks, ExactOutBooks}
use rm_uniswap.SwapMath.Step.{
  compute_swap_step-ExactInBooks, compute_swap_step-ExactOutBooks, step_max_fee,
}
use rm_uniswap.Word.{checked_add}

-- What a step books, by the sign of the amount.
abbrev pub Books : ℕ → ℤ → Fee → SwapStep → Type 0
Books t (pos a) f s = ExactOutBooks t a f s
Books t (negsuc n) f s = ExactInBooks t (suc n) f s

pub step_lem :
    (p t l : ℕ) (z : ℤ) (f : Fee) (s : SwapStep)
    → IsPrice p
    → IsPrice t
    → IsLiquidity l
    → IsFee f
    → 0 < abs z
    → abs z ≤ 2 ^ 255
    → compute_swap_step p t l z f ≡ ok s
    → Funded p t l s × Books t z f s
step_lem p t l (negsuc n) f s hp ht hl hf positive small e =
    let (s', e', funded, books) =
      compute_swap_step-ExactInBooks p t l n f hp ht hl hf (omega arith) in
    let same : s' ≡ s = ok_injective (sym e' ∙ e) in rw (sym same) (funded, books)
step_lem p t l (pos a) f s hp ht hl hf positive small e = elim (lt_or_ge f.pips 1_000_000) [
  | inl below ↦
      let (s', e', funded, books) =
        compute_swap_step-ExactOutBooks p t l a f hp ht hl hf below (omega arith) (omega arith) in
      let same : s' ≡ s = ok_injective (sym e' ∙ e) in rw (sym same) (funded, books)
  | inr full ↦
      let full' : f.pips ≡ 1_000_000 = omega (arith, hf) in
      cc (step_max_fee p t l a f (omega arith) full', e)
]

-- The remaining amount has the sign of the amount and is at most as large; the calculated amount has
-- the other side's sign.
abbrev pub Remaining : ℤ → ℤ → ℤ → Type 0
Remaining (pos a) r c = (neg_part r ≡ 0) × (pos_part r ≤ a) × (pos_part c ≡ 0)
Remaining (negsuc n) r c = (pos_part r ≡ 0) × (neg_part r ≤ suc n) × (neg_part c ≡ 0)

fit_lem : (z r : ℤ) (e : Error) → ok_or (fit_i256 z) e ≡ ok r → r ≡ z
fit_lem z r e h = elim (Bool-cases (leb_ℤ (negsuc (2 ^ 255 - 1)) z && ltb_ℤ z (pos (2 ^ 255)))) [
  | inl fits ↦ sym (ok_injective (rw fits at h))
  | inr wide ↦ cc (rw wide at h)
]

to_i256_lem : (n : ℕ) (r : ℤ) → to_i256 n ≡ ok r → r ≡ pos n
to_i256_lem n r h = elim (Bool-cases (ltb n (2 ^ 255))) [
  | inl fits ↦ sym (ok_injective (rw fits at h))
  | inr wide ↦ cc (rw wide at h)
]

paid_lem :
    (a b : ℕ) (e : Error) (r : ℤ)
    → (ok_or (checked_add 256 a b) e >>= to_i256) ≡ ok r
    → r ≡ pos (a + b)
paid_lem a b e r h = elim (Bool-cases (ltb (a + b) (2 ^ 256))) [
  | inl fits ↦ to_i256_lem (a + b) r (rw fits at h)
  | inr wide ↦ cc (rw wide at h)
]

pub book_amounts_out :
    (s : SwapStep) (r c r' c' : ℤ)
    → book_amounts true s r c ≡ ok (r', c')
    → (r' ≡ r -ℤ pos s.amount_out) × (c' ≡ c -ℤ pos (s.amount_in + s.fee_amount))
unfolding book_amounts
book_amounts_out s r c r' c' h =
    let (out, e0, h1) = >>=-eq-ok (to_i256 s.amount_out) _ h in
    let (r1, e1, h2) = >>=-eq-ok (ok_or (fit_i256 (r -ℤ out)) amount_overflow) _ h1 in
    let (total, e2, h3) =
      >>=-eq-ok (ok_or (checked_add 256 s.amount_in s.fee_amount) amount_overflow >>= to_i256) _
        h2 in
    let (c1, e3, h4) = >>=-eq-ok (ok_or (fit_i256 (c -ℤ total)) amount_overflow) _ h3 in
    let out_eq = to_i256_lem s.amount_out out e0 in
    let total_eq = paid_lem s.amount_in s.fee_amount amount_overflow total e2 in
    (
      cc (h4, fit_lem (r -ℤ out) r1 amount_overflow e1, out_eq),
      cc (h4, fit_lem (c -ℤ total) c1 amount_overflow e3, total_eq),
    )

pub book_amounts_in :
    (s : SwapStep) (r c r' c' : ℤ)
    → book_amounts false s r c ≡ ok (r', c')
    → (r' ≡ r +ℤ pos (s.amount_in + s.fee_amount)) × (c' ≡ c +ℤ pos s.amount_out)
unfolding book_amounts
book_amounts_in s r c r' c' h =
    let (total, e0, h1) =
      >>=-eq-ok (ok_or (checked_add 256 s.amount_in s.fee_amount) amount_overflow >>= to_i256) _
        h in
    let (r1, e1, h2) = >>=-eq-ok (ok_or (fit_i256 (r +ℤ total)) amount_overflow) _ h1 in
    let (out, e2, h3) = >>=-eq-ok (to_i256 s.amount_out) _ h2 in
    let (c1, e3, h4) = >>=-eq-ok (ok_or (fit_i256 (c +ℤ out)) amount_overflow) _ h3 in
    let total_eq = paid_lem s.amount_in s.fee_amount amount_overflow total e0 in
    let out_eq = to_i256_lem s.amount_out out e2 in
    (
      cc (h4, fit_lem (r +ℤ total) r1 amount_overflow e1, total_eq),
      cc (h4, fit_lem (c +ℤ out) c1 amount_overflow e3, out_eq),
    )

-- A booked step keeps the remaining amount in its range, and ends on the target or uses it up.
pub booked_lem :
    (amount r c r' c' : ℤ) (t : ℕ) (f : Fee) (s : SwapStep)
    → Remaining amount r c
    → 0 < abs r
    → Books t r f s
    → book_amounts (ltb_ℤ (pos 0) amount) s r c ≡ ok (r', c')
    → Remaining amount r' c' × ((s.sqrt_ratio_next_x96 ≡ t) ⊎ (abs r' ≡ 0))
booked_lem (pos a) (pos x) c r' c' t f s h positive books e =
    let (er, ec) = book_amounts_out s (pos x) c r' c' (rw (lt→ltb 0 (a + 0) (omega arith)) at e) in
    rw (er, ec)
      (
        (
          omega (arith, -ℤ_parts, parts_disjoint (pos x -ℤ pos s.amount_out), books),
          omega (arith, -ℤ_parts, parts_disjoint (pos x -ℤ pos s.amount_out), books),
          omega (arith, -ℤ_parts, parts_disjoint (c -ℤ pos (s.amount_in + s.fee_amount))),
        ),
        elim books.delivered [
          | inl reached ↦ inl reached
          | inr all ↦ inr (omega (arith, -ℤ_parts, parts_disjoint (pos x -ℤ pos s.amount_out)))
        ],
      )
booked_lem (pos a) (negsuc x) c r' c' t f s h positive books e = absurd (omega arith)
booked_lem (negsuc n) (pos x) c r' c' t f s h positive books e = absurd (omega arith)
booked_lem (negsuc n) (negsuc x) c r' c' t f s h positive books e =
    let (er, ec) =
      book_amounts_in s (negsuc x) c r' c' (rw (le→ltb (0 + suc n) 0 (omega arith)) at e) in
    rw (er, ec)
      (
        (
          omega (
            arith,
            +ℤ_parts,
            parts_disjoint (negsuc x +ℤ pos (s.amount_in + s.fee_amount)),
            books,
          ),
          omega (
            arith,
            +ℤ_parts,
            parts_disjoint (negsuc x +ℤ pos (s.amount_in + s.fee_amount)),
            books,
          ),
          omega (arith, +ℤ_parts, parts_disjoint (c +ℤ pos s.amount_out)),
        ),
        elim books.used_up [
          | inl reached ↦ inl reached
          | inr all ↦ inr (
              omega
                (arith, +ℤ_parts, parts_disjoint (negsuc x +ℤ pos (s.amount_in + s.fee_amount))))
        ],
      )
