-- ===== src/FullMath/Q96.antt =====
-- About `mul_q96_div` and its shortcuts.
use native.Mathlib.Nat.{mod-eq_of_lt, mul-div-mul_right, zero-div, div-le_self, div-one}
use rm_uniswap.Prelude.{
  ℕ, zero, suc, ◌-◌, ◌*◌, ◌/◌, ◌%◌, ◌^◌, ◌≤◌, ◌<◌, ◌≡◌, refl, sym, ap, ◌∙◌, arith, inl, inr, ◌⊎◌,
  false, Bool-cases, ◌==◌, ltb, leb, if◌then◌else◌, lt_or_ge, le→leb, lt→leb, lt→ltb, le→ltb,
  le_div_of_mul_le, div_lt_of_lt_mul, lt_mul_of_div_lt, mul_le_of_le_div,
}
use rm_uniswap.Error.{ok, err, overflow}
use rm_uniswap.FullMath.{mul_q96_div, is_power_of_two, narrow}
use rm_uniswap.FullMath.Exact.{denominator-cases}
use rm_uniswap.FullMath.PowerOfTwo.{is_power_of_two-true}
use rm_uniswap.Ratio.{exact_floor, exact_floor_ok, exact_floor_overflow, exact_floor_multiple}
use rm_uniswap.Word.{trailing_zeros, ◌>>>◌, shl}
use rm_uniswap.Word.Pow.{two_pow_pos, two_pow_add}

-- A left shift by `k` whose guard compares the amount with `U256::MAX >> k`.
pub guarded_shift :
    (amount k : ℕ)
    → (if ltb (2 ^ 256 - 1 >>> k) amount then err overflow else ok (shl 256 amount k))
      ≡ (if ltb (amount * 2 ^ k) (2 ^ 256) then ok (amount * 2 ^ k) else err overflow)
guarded_shift amount k = elim (lt_or_ge ((2 ^ 256 - 1) / 2 ^ k) amount) [
  | inl lt ↦
      let big : 2 ^ 256 ≤ amount * 2 ^ k =
        omega (arith, lt_mul_of_div_lt (2 ^ 256 - 1) (2 ^ k) amount (two_pow_pos k) lt) in
      rw (lt→ltb ((2 ^ 256 - 1) / 2 ^ k) amount lt, le→ltb (amount * 2 ^ k) (2 ^ 256) big)
  | inr ge ↦
      let small : amount * 2 ^ k < 2 ^ 256 =
        omega (arith, mul_le_of_le_div (2 ^ 256 - 1) (2 ^ k) amount (two_pow_pos k) ge) in
      rw (
        le→ltb ((2 ^ 256 - 1) / 2 ^ k) amount ge,
        lt→ltb (amount * 2 ^ k) (2 ^ 256) small,
        mod-eq_of_lt small,
      )
]

-- Dividing `amount * 2^96` by a power of two, below and above the scale.
pub divide_below : (amount s : ℕ) → s ≤ 96 → amount * 2 ^ 96 ≡ amount * 2 ^ (96 - s) * 2 ^ s
divide_below amount s h =
    ap (λ (u : ℕ). amount * u) (two_pow_add (96 - s) s 96 (omega arith)) ∙ omega arith

pub divide_above : (amount s : ℕ) → 96 ≤ s → amount * 2 ^ 96 / 2 ^ s ≡ amount / 2 ^ (s - 96)
divide_above amount s h =
    ap (λ (u : ℕ). amount * 2 ^ 96 / u) (two_pow_add (s - 96) 96 s (omega arith))
    ∙ mul-div-mul_right {m = 2 ^ 96} amount (2 ^ (s - 96)) (omega arith)

-- The word-sized shift or the wide division, where the denominator is no power of two.
pub wide_floor :
    (amount d : ℕ)
    → 0 < d
    → (if leb amount (2 ^ 256 - 1 >>> 96)
        then ok (shl 256 amount 96 / d)
        else if leb d (amount >>> 160)
        then err overflow
        else narrow (amount * 2 ^ 96 / d))
      ≡ exact_floor (amount * 2 ^ 96) d
unfolding narrow
wide_floor amount d pos = elim (lt_or_ge amount (2 ^ 160)) [
  | inl lt ↦
      let small : amount * 2 ^ 96 < 2 ^ 256 = omega arith in
      rw (le→leb amount (2 ^ 160 - 1) (omega arith), mod-eq_of_lt small)
        (sym
          (exact_floor_ok (amount * 2 ^ 96) d pos (omega (arith, div-le_self (amount * 2 ^ 96) d))))
  | inr ge ↦ rw (lt→leb amount (2 ^ 160 - 1) (omega arith)) (elim (lt_or_ge (amount / 2 ^ 160) d) [
    | inr over ↦ rw (le→leb d (amount / 2 ^ 160) over) (
        sym (
          exact_floor_overflow (amount * 2 ^ 96) d pos
            (le_div_of_mul_le (amount * 2 ^ 96) d (2 ^ 256) pos (omega arith))))
    | inl under ↦
        let q = amount * 2 ^ 96 / d in
        let small : q < 2 ^ 256 =
          div_lt_of_lt_mul (amount * 2 ^ 96) d (2 ^ 256) pos (omega arith) in
        let high : q / 2 ^ 256 ≡ 0 = omega arith in
        let low : q % 2 ^ 256 ≡ q = omega arith in
        rw (lt→leb d (amount / 2 ^ 160) under, high, low)
          (sym (exact_floor_ok (amount * 2 ^ 96) d pos small))
  ])
]

-- The left shift of a small power of two, with its guard.
pub left_shift :
    (amount s : ℕ)
    → amount < 2 ^ 256
    → (if 96 - s == 0
        then ok amount
        else if ltb (2 ^ 256 - 1 >>> (96 - s)) amount
        then err overflow
        else ok (shl 256 amount (96 - s)))
      ≡ (if ltb (amount * 2 ^ (96 - s)) (2 ^ 256) then ok (amount * 2 ^ (96 - s)) else err overflow)
left_shift amount s ha = elim (Bool-cases (96 - s == 0)) [
  | inl z ↦
      let e : 96 - s ≡ 0 = ground arith in
      let same : amount * 2 ^ 0 ≡ amount = omega arith in
      rw (z, e, same, lt→ltb amount (2 ^ 256) ha)
  | inr nz ↦ rw nz (guarded_shift amount (96 - s))
]

pub power_floor :
    (amount s : ℕ)
    → amount < 2 ^ 256
    → (if leb s 96
        then (if 96 - s == 0
            then ok amount
            else if ltb (2 ^ 256 - 1 >>> (96 - s)) amount
            then err overflow
            else ok (shl 256 amount (96 - s)))
        else ok (amount >>> (s - 96)))
      ≡ exact_floor (amount * 2 ^ 96) (2 ^ s)
power_floor amount s ha = elim (lt_or_ge 96 s) [
  | inr le ↦ rw (le→leb s 96 le) (
      left_shift amount s ha
      ∙ sym (exact_floor_multiple (amount * 2 ^ (96 - s)) (2 ^ s) (two_pow_pos s))
      ∙ ap (λ (u : ℕ). exact_floor u (2 ^ s)) (sym (divide_below amount s le)))
  | inl gt ↦
      let e = divide_above amount s (omega arith) in
      rw (lt→leb s 96 gt) (
        ap ok (sym e)
        ∙ sym (
            exact_floor_ok (amount * 2 ^ 96) (2 ^ s) (two_pow_pos s)
              (omega (arith, e, div-le_self amount (2 ^ (s - 96))))))
]

pub nonzero-cases : (a : ℕ) → (a ≡ 0) ⊎ ((a == 0) ≡ false)
nonzero-cases zero = inl refl
nonzero-cases (suc a) = inr (ground arith)

-- For 256-bit operands `mul_q96_div` is the exact quotient of `amount * 2^96`, rounded down, through
-- each of its shortcuts; an error at a zero denominator, an overflow exactly where that quotient
-- leaves the word.
pub mul_q96_div_lem :
    (amount d : ℕ)
    → amount < 2 ^ 256
    → d < 2 ^ 256
    → mul_q96_div amount d ≡ exact_floor (amount * 2 ^ 96) d
unfolding mul_q96_div
mul_q96_div_lem amount d ha hd = elim (denominator-cases d) [
  | inl z ↦ rw z refl
  | inr (inl one) ↦ rw one (elim (nonzero-cases amount) [
    | inl z ↦ rw z refl
    | inr nz ↦ rw nz (guarded_shift amount 96 ∙ rw (div-one (amount * 2 ^ 96)))
  ])
  | inr (inr (pos, z, one)) ↦ elim (nonzero-cases amount) [
    | inl az ↦ rw (az, z, zero-div d) refl
    | inr nz ↦
        rw (nz, z, one)
          (elim (Bool-cases (is_power_of_two d)) [
            | inl test ↦
                let (e, lt) = is_power_of_two-true d hd test in
                rw test (
                  power_floor amount (trailing_zeros 256 d) ha
                  ∙ ap (exact_floor (amount * 2 ^ 96)) (sym e)
                  ∙ rw z)
            | inr test ↦ rw test (wide_floor amount d pos ∙ rw z)
          ])
  ]
]
