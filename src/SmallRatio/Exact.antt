-- ===== src/SmallRatio/Exact.antt =====
-- About `mul_div_u32_floor` and `mul_div_u32_ceil`.
use Prim.Native.Nat.{bit_or}
use native.Mathlib.Nat.{zero-div, mul-div_cancel}
use rm_uniswap.Prelude.{
  ℕ, ◌+◌, ◌*◌, ◌/◌, ◌%◌, ◌^◌, ◌<◌, ◌≡◌, refl, arith, ltb, ◌==◌, if◌then◌else◌, div_unique,
  mod_unique, Bool-cases, inl, inr, lt_or_ge, ap, false, mul_lt, sym, ◌∙◌, ==_iff, lt→ltb, le→ltb,
  le_div_of_mul_le, div_lt_of_lt_mul, ◌||◌,
}
use rm_uniswap.Error.{Result, ok, err, overflow}
use rm_uniswap.Ratio.{
  exact_floor, exact_ceil, exact_floor_pos, round_up-exact_ceil, exact_ceil_overflow,
}
use rm_uniswap.SmallRatio.{
  mul_div_low64_u32, mul_div_low128_u32, mul_div_full_u32, mul_div_u32_div_rem, mul_div_u32_floor,
  mul_div_u32_ceil, u64, limb,
}
use rm_uniswap.Word.Fields.{bit_or_eq_zero}
use rm_uniswap.SmallRatio.Laws.{
  IsDivision, mul_div_low64_u32-IsDivision, mul_div_low128_u32-IsDivision, quotient_limbs,
  product_limbs, product3, quotient_overflow,
}

-- What the three paths share: quotient and remainder, or the overflow.
abbrev exact_div_rem : ℕ → ℕ → Result (ℕ × ℕ)
exact_div_rem n d = if ltb (n / d) (2 ^ 256) then ok (n / d, n % d) else err overflow

IsDivision-eq : (n d : ℕ) (p : ℕ × ℕ) → IsDivision n d p → p ≡ (n / d, n % d)
IsDivision-eq n d (q, r) h = cc (
  div_unique d q {n = n} {r = r} (sym h.divides) h.below,
  mod_unique d q {n = n} {r = r} (sym h.divides) h.below,
)

exact_div_rem_ok :
    (n d : ℕ) (p : ℕ × ℕ) → n / d < 2 ^ 256 → IsDivision n d p → ok p ≡ exact_div_rem n d
exact_div_rem_ok n d p small h = rw (lt→ltb (n / d) (2 ^ 256) small) (ap ok (IsDivision-eq n d p h))

mul_div_full_u32-eq :
    (amount n d : ℕ)
    → amount < 2 ^ 256
    → n < 2 ^ 32
    → 0 < d
    → d < 2 ^ 32
    → mul_div_full_u32 amount n d ≡ exact_div_rem (amount * n) d
mul_div_full_u32-eq amount n d ha hn p hd =
    let p4 = u64 (product3 amount n d ha hn p hd / 2 ^ 64) in
    let limbs = product_limbs amount n d ha hn p hd in
    elim (lt_or_ge p4 d) [
      | inl lt ↦
          let (r, e, h) = quotient_limbs amount n d ha hn p hd lt in
          e
          ∙ exact_div_rem_ok (amount * n) d r
              (div_lt_of_lt_mul (amount * n) d (2 ^ 256) p (omega arith)) h
      | inr ge ↦
          quotient_overflow amount n d ha hn p hd ge
          ∙ rw (
              le→ltb (amount * n / d) (2 ^ 256)
                (le_div_of_mul_le (amount * n) d (2 ^ 256) p (omega arith)))
    ]

-- The dispatch on the number of limbs in use.
by_limbs-eq :
    (amount n d : ℕ)
    → amount < 2 ^ 256
    → n < 2 ^ 32
    → 0 < d
    → d < 2 ^ 32
    → (if bit_or (bit_or (limb 1 amount) (limb 2 amount)) (limb 3 amount) == 0
        then ok (mul_div_low64_u32 (limb 0 amount) n d)
        else if bit_or (limb 2 amount) (limb 3 amount) == 0
        then ok (mul_div_low128_u32 (limb 0 amount) (limb 1 amount) n d)
        else mul_div_full_u32 amount n d)
      ≡ exact_div_rem (amount * n) d
by_limbs-eq amount n d ha hn p hd =
    elim (Bool-cases (bit_or (bit_or (limb 1 amount) (limb 2 amount)) (limb 3 amount) == 0)) [
      | inl z ↦
          let z3 =
            bit_or_eq_zero (bit_or (limb 1 amount) (limb 2 amount)) (limb 3 amount)
              ((==_iff _ _).0 z) in
          let z2 = bit_or_eq_zero (limb 1 amount) (limb 2 amount) z3.0 in
          let e : limb 0 amount ≡ amount = omega arith in
          let small = mul_lt amount n (2 ^ 64) (2 ^ 32) (omega arith) hn in
          rw z (
            rw e (
              exact_div_rem_ok (amount * n) d (mul_div_low64_u32 amount n d)
                (div_lt_of_lt_mul (amount * n) d (2 ^ 256) p (omega arith))
                (mul_div_low64_u32-IsDivision amount n d (omega arith) hn p hd)))
      | inr nz ↦ rw nz (elim (Bool-cases (bit_or (limb 2 amount) (limb 3 amount) == 0)) [
        | inl z ↦
            let z2 = bit_or_eq_zero (limb 2 amount) (limb 3 amount) ((==_iff _ _).0 z) in
            let e : limb 0 amount + limb 1 amount * 2 ^ 64 ≡ amount = omega arith in
            let small = mul_lt amount n (2 ^ 128) (2 ^ 32) (omega arith) hn in
            let division =
              mul_div_low128_u32-IsDivision (limb 0 amount) (limb 1 amount) n d (omega arith)
                (omega arith) hn p hd in
            rw z (
              exact_div_rem_ok (amount * n) d
                (mul_div_low128_u32 (limb 0 amount) (limb 1 amount) n d)
                (div_lt_of_lt_mul (amount * n) d (2 ^ 256) p (omega arith)) (rw e at division))
        | inr nz2 ↦ rw nz2 (mul_div_full_u32-eq amount n d ha hn p hd)
      ])
    ]

-- The dispatch on zero operands, an equal ratio and the number of limbs in use changes no result.
mul_div_u32_div_rem-eq :
    (amount n d : ℕ)
    → amount < 2 ^ 256
    → n < 2 ^ 32
    → 0 < d
    → d < 2 ^ 32
    → mul_div_u32_div_rem amount n d ≡ exact_div_rem (amount * n) d
unfolding mul_div_u32_div_rem
mul_div_u32_div_rem-eq amount n d ha hn p hd =
    let nonzero : (d == 0) ≡ false = ground arith in
    rw nonzero (elim (Bool-cases ((amount == 0) || (n == 0))) [
      | inl z ↦
          let e : amount * n ≡ 0 = ground arith in
          rw (z, e)
            (exact_div_rem_ok 0 d (0, 0) (omega (arith, zero-div d))
              (record { divides = omega arith; below = p }))
      | inr nz ↦ rw nz (elim (Bool-cases (n == d)) [
        | inl same ↦
            let e : n ≡ d = (==_iff n d).0 same in
            rw (same, e)
              (exact_div_rem_ok (amount * d) d (amount, 0)
                (omega (arith, mul-div_cancel amount {n = d} p))
                (record { divides = omega arith; below = p }))
        | inr other ↦ rw other (by_limbs-eq amount n d ha hn p hd)
      ])
    ])

-- For a 256-bit amount and 32-bit operands, `mul_div_u32_floor` is the exact quotient rounded down:
-- an error at a zero denominator, an overflow exactly where that quotient leaves the word.
pub mul_div_u32_floor_lem :
    (amount n d : ℕ)
    → amount < 2 ^ 256
    → n < 2 ^ 32
    → d < 2 ^ 32
    → mul_div_u32_floor amount n d ≡ exact_floor (amount * n) d
unfolding mul_div_u32_floor
mul_div_u32_floor_lem amount n d ha hn hd = elim (lt_or_ge 0 d) [
  | inl p ↦
      rw (mul_div_u32_div_rem-eq amount n d ha hn p hd, exact_floor_pos (amount * n) d p)
        (elim (Bool-cases (ltb (amount * n / d) (2 ^ 256))) [ inl e ↦ rw e | inr e ↦ rw e ])
  | inr z ↦ let e : d ≡ 0 = omega arith in rw e (unfold mul_div_u32_div_rem in refl)
]

-- For a 256-bit amount and 32-bit operands, `mul_div_u32_ceil` is the exact quotient rounded up: an
-- error at a zero denominator, an overflow exactly where that quotient leaves the word.
pub mul_div_u32_ceil_lem :
    (amount n d : ℕ)
    → amount < 2 ^ 256
    → n < 2 ^ 32
    → d < 2 ^ 32
    → mul_div_u32_ceil amount n d ≡ exact_ceil (amount * n) d
unfolding mul_div_u32_ceil
mul_div_u32_ceil_lem amount n d ha hn hd = elim (lt_or_ge 0 d) [
  | inl p ↦
      rw (mul_div_u32_div_rem-eq amount n d ha hn p hd)
        (elim (lt_or_ge (amount * n / d) (2 ^ 256)) [
          | inl e ↦
              rw (lt→ltb (amount * n / d) (2 ^ 256) e) (round_up-exact_ceil (amount * n) d p e)
          | inr e ↦
              rw (le→ltb (amount * n / d) (2 ^ 256) e)
                (sym (exact_ceil_overflow (amount * n) d p e))
        ])
  | inr z ↦ let e : d ≡ 0 = omega arith in rw e (unfold mul_div_u32_div_rem in refl)
]
