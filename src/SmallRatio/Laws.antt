-- ===== src/SmallRatio/Laws.antt =====
-- About the long division over limbs.
use Prim.Native.Nat.{bit_or}
use native.Mathlib.Nat.{mod-eq_of_lt, div-add-mod'}
use rm_uniswap.Prelude.{
  ℕ, ◌+◌, ◌-◌, ◌*◌, ◌/◌, ◌^◌, ◌≤◌, ◌<◌, ◌≡◌, arith, div_lt_of_lt_mul, mul_lt, inl, inr, lt_or_ge,
  lt→ltb, le→ltb, lt→leb, le→leb, ap,
}
use rm_uniswap.Error.{ok, err, overflow}
use rm_uniswap.SmallRatio.{
  div_step_u32, divide_leading_u32, mul_div_low64_u32, mul_div_low128_u32, mul_div_full_u32, u64,
  u32, limb, from_limbs,
}
use rm_uniswap.Word.{shl}
use rm_uniswap.Word.Fields.{bit_or_fields}

-- `(q, r)` divides `n` by `d`.
pub record IsDivision (n d : ℕ) (p : ℕ × ℕ) : Type 0 where
  pub divides : p.0 * d + p.1 ≡ n
  pub below : p.1 < d

divide_word :
    (n d : ℕ)
    → n < d * 2 ^ 64
    → 0 < d
    → d < 2 ^ 32
    → IsDivision n d (u64 (n / d), u64 (n - n / d * d))
divide_word n d h p hd =
    let q_fits : n / d < 2 ^ 64 = div_lt_of_lt_mul n d (2 ^ 64) p (omega arith) in
    let split = div-add-mod' n d in
    let r_fits : n - n / d * d < 2 ^ 64 = omega arith in
    rw (mod-eq_of_lt q_fits, mod-eq_of_lt r_fits)
      (record { divides = omega arith; below = omega arith })

pub div_step_u32-IsDivision :
    (remainder limb d : ℕ)
    → remainder < d
    → d < 2 ^ 32
    → limb < 2 ^ 64
    → IsDivision (remainder * 2 ^ 64 + limb) d (div_step_u32 remainder limb d)
unfolding div_step_u32
div_step_u32-IsDivision remainder limb d h hd hl =
    let current : bit_or (shl 128 remainder 64) limb ≡ remainder * 2 ^ 64 + limb =
      rw (mod-eq_of_lt {n = remainder * 2 ^ 64} {m = 2 ^ 128} (omega arith))
        (bit_or_fields 64 remainder limb hl) in
    rw current (divide_word (remainder * 2 ^ 64 + limb) d (omega arith) (omega arith) hd)

pub divide_leading_u32-IsDivision :
    (leading d : ℕ) → 0 < d → IsDivision leading d (divide_leading_u32 leading d)
unfolding divide_leading_u32
divide_leading_u32-IsDivision leading d p = elim (lt_or_ge leading d) [
  | inl lt ↦ rw (lt→ltb leading d lt) (record { divides = omega arith; below = lt })
  | inr ge ↦ rw (le→ltb leading d ge) (omega (arith, div-add-mod' leading d))
]

pub mul_div_low64_u32-IsDivision :
    (a0 n d : ℕ)
    → a0 < 2 ^ 64
    → n < 2 ^ 32
    → 0 < d
    → d < 2 ^ 32
    → IsDivision (a0 * n) d (mul_div_low64_u32 a0 n d)
unfolding mul_div_low64_u32
mul_div_low64_u32-IsDivision a0 n d ha hn p hd =
    let product = a0 * n in
    let p1 = u64 (product / 2 ^ 64) in
    let lead = divide_leading_u32-IsDivision p1 d p in
    let (q1, r1) = divide_leading_u32 p1 d in
    let last = div_step_u32-IsDivision r1 (u64 product) d lead.below hd (omega arith) in
    let small : product < 2 ^ 96 = mul_lt a0 n (2 ^ 64) (2 ^ 32) ha hn in
    record { divides = omega arith; below = omega arith }

pub mul_div_low128_u32-IsDivision :
    (a0 a1 n d : ℕ)
    → a0 < 2 ^ 64
    → a1 < 2 ^ 64
    → n < 2 ^ 32
    → 0 < d
    → d < 2 ^ 32
    → IsDivision ((a0 + a1 * 2 ^ 64) * n) d (mul_div_low128_u32 a0 a1 n d)
unfolding mul_div_low128_u32
mul_div_low128_u32-IsDivision a0 a1 n d h0 h1 hn p hd =
    let product0 = a0 * n in
    let product1 = a1 * n + product0 / 2 ^ 64 in
    let small0 : product0 < 2 ^ 96 = mul_lt a0 n (2 ^ 64) (2 ^ 32) h0 hn in
    let small1 : a1 * n < 2 ^ 96 = mul_lt a1 n (2 ^ 64) (2 ^ 32) h1 hn in
    let p2 = u64 (product1 / 2 ^ 64) in
    let lead = divide_leading_u32-IsDivision p2 d p in
    let (q2, r2) = divide_leading_u32 p2 d in
    let step1 = div_step_u32-IsDivision r2 (u64 product1) d lead.below hd (omega arith) in
    let (q1, r1) = div_step_u32 r2 (u64 product1) d in
    let step0 = div_step_u32-IsDivision r1 (u64 product0) d step1.below hd (omega arith) in
    record { divides = omega arith; below = omega arith }

module _ (amount n d : ℕ) (ha : amount < 2 ^ 256) (hn : n < 2 ^ 32) (p : 0 < d)
    (hd : d < 2 ^ 32) where
  abbrev pub product0 : ℕ
  product0 = limb 0 amount * n

  abbrev pub product1 : ℕ
  product1 = limb 1 amount * n + product0 / 2 ^ 64

  abbrev pub product2 : ℕ
  product2 = limb 2 amount * n + product1 / 2 ^ 64

  abbrev pub product3 : ℕ
  product3 = limb 3 amount * n + product2 / 2 ^ 64

  limb_small : (i : ℕ) → limb i amount * n < 2 ^ 96
  limb_small i = mul_lt (limb i amount) n (2 ^ 64) (2 ^ 32) (omega arith) hn

  amount_limbs :
      limb 0 amount + limb 1 amount * 2 ^ 64 + limb 2 amount * 2 ^ 128 + limb 3 amount * 2 ^ 192
      ≡ amount
  amount_limbs = omega arith

  -- The top word of the product, below 2^32, with the four words under it.
  pub product_limbs :
      u64 (product3 / 2 ^ 64) * 2 ^ 256
        + u64 product3 * 2 ^ 192
        + u64 product2 * 2 ^ 128
        + u64 product1 * 2 ^ 64
        + u64 product0
      ≡ amount * n
  product_limbs = omega (
    arith,
    limb_small 0,
    limb_small 1,
    limb_small 2,
    limb_small 3,
    ap (λ (t : ℕ). t * n) amount_limbs,
  )

  -- The four steps, when the top word is below the divisor.
  pub quotient_limbs :
      u64 (product3 / 2 ^ 64) < d
      → (p : ℕ × ℕ) × (mul_div_full_u32 amount n d ≡ ok p) × IsDivision (amount * n) d p
  unfolding mul_div_full_u32
  quotient_limbs below =
      let p4 = u64 (product3 / 2 ^ 64) in
      let step3 = div_step_u32-IsDivision p4 (u64 product3) d below hd (omega arith) in
      let (q3, r3) = div_step_u32 p4 (u64 product3) d in
      let step2 = div_step_u32-IsDivision r3 (u64 product2) d step3.below hd (omega arith) in
      let (q2, r2) = div_step_u32 r3 (u64 product2) d in
      let step1 = div_step_u32-IsDivision r2 (u64 product1) d step2.below hd (omega arith) in
      let (q1, r1) = div_step_u32 r2 (u64 product1) d in
      let step0 = div_step_u32-IsDivision r1 (u64 product0) d step1.below hd (omega arith) in
      let (q0, r0) = div_step_u32 r1 (u64 product0) d in
      (
        (from_limbs q0 q1 q2 q3, u32 r0),
        rw (lt→leb d p4 below),
        record { divides = omega (arith, product_limbs); below = omega arith },
      )

  -- Otherwise the quotient leaves the word, and the routine says so.
  pub quotient_overflow : d ≤ u64 (product3 / 2 ^ 64) → mul_div_full_u32 amount n d ≡ err overflow
  unfolding mul_div_full_u32
  quotient_overflow above = rw (le→leb d (u64 (product3 / 2 ^ 64)) above)
