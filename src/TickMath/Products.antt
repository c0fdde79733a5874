-- ===== src/TickMath/Products.antt =====
-- About `mul_hi_u128`, `widening_mul_u128` and `smul_i128_u128`.
use native.Mathlib.Nat.{mod-eq_of_lt}
use rm_uniswap.Prelude.{
  ℕ, ◌+◌, ◌-◌, ◌*◌, ◌/◌, ◌%◌, ◌^◌, ◌<◌, ◌≡◌, sym, ap, ◌∙◌, arith, suc, lt_or_ge, inl, inr, lt→ltb,
  le→ltb, pos_nonzero, ◌==◌, if◌then◌else◌, div_unique, mod_unique,
}
use rm_uniswap.Prelude.Int.{ℤ, pos, negsuc, pos_part, neg_part, ◌-ℤ◌, neg, -ℤ_parts, eq_of_parts}
use rm_uniswap.TickMath.{mul_hi_u128, widening_mul_u128, smul_i128_u128}
use rm_uniswap.Word.{shl, wrapping_neg}
use rm_uniswap.Word.Fields.{bit_and_mask, bit_or_fields}

-- The four partial products of the 64-bit halves.
abbrev high : ℕ → ℕ → ℕ → ℕ → ℕ
high ll lh hl hh =
    hh + lh / 2 ^ 64 + hl / 2 ^ 64 + (ll / 2 ^ 64 + lh % 2 ^ 64 + hl % 2 ^ 64) / 2 ^ 64

abbrev low : ℕ → ℕ → ℕ → ℕ
low ll lh hl = (ll / 2 ^ 64 + lh % 2 ^ 64 + hl % 2 ^ 64) % 2 ^ 64 * 2 ^ 64 + ll % 2 ^ 64

schoolbook :
    (a b : ℕ)
    → (let al = a % 2 ^ 64 in
        let ah = a / 2 ^ 64 in
        let bl = b % 2 ^ 64 in
        let bh = b / 2 ^ 64 in
        a * b
        ≡ high (al * bl) (al * bh) (ah * bl) (ah * bh) * 2 ^ 128
          + low (al * bl) (al * bh) (ah * bl))
schoolbook a b =
    let al = a % 2 ^ 64 in
    let ah = a / 2 ^ 64 in
    let bl = b % 2 ^ 64 in
    let bh = b / 2 ^ 64 in
    let split_a : a ≡ ah * 2 ^ 64 + al = omega arith in
    let split_b : b ≡ bh * 2 ^ 64 + bl = omega arith in
    let e1 : a * b ≡ (ah * 2 ^ 64 + al) * b = ap (λ (t : ℕ). t * b) split_a in
    let e2 : al * b ≡ al * (bh * 2 ^ 64 + bl) = ap (λ (t : ℕ). al * t) split_b in
    let e3 : ah * b ≡ ah * (bh * 2 ^ 64 + bl) = ap (λ (t : ℕ). ah * t) split_b in omega arith

low_lt : (ll lh hl : ℕ) → low ll lh hl < 2 ^ 128
low_lt ll lh hl = omega arith

-- For all numbers, `mul_hi_u128` is the exact product divided by 2^128, rounded down.
pub mul_hi_u128_lem : (a b : ℕ) → mul_hi_u128 a b ≡ a * b / 2 ^ 128
unfolding mul_hi_u128
mul_hi_u128_lem a b =
    let lh = a % 2 ^ 64 * (b / 2 ^ 64) in
    let hl = a / 2 ^ 64 * (b % 2 ^ 64) in
    let ll = a % 2 ^ 64 * (b % 2 ^ 64) in
    let hh = a / 2 ^ 64 * (b / 2 ^ 64) in
    rw (bit_and_mask 64 a, bit_and_mask 64 b, bit_and_mask 64 lh, bit_and_mask 64 hl)
      (sym (div_unique (2 ^ 128) (high ll lh hl hh) (schoolbook a b) (low_lt ll lh hl)))

-- For all numbers, `widening_mul_u128` returns the quotient and the remainder of the exact product
-- by 2^128.
pub widening_mul_u128_lem : (a b : ℕ) → widening_mul_u128 a b ≡ (a * b / 2 ^ 128, a * b % 2 ^ 128)
unfolding widening_mul_u128
widening_mul_u128_lem a b =
    let lh = a % 2 ^ 64 * (b / 2 ^ 64) in
    let hl = a / 2 ^ 64 * (b % 2 ^ 64) in
    let ll = a % 2 ^ 64 * (b % 2 ^ 64) in
    let hh = a / 2 ^ 64 * (b / 2 ^ 64) in
    let mid = ll / 2 ^ 64 + lh % 2 ^ 64 + hl % 2 ^ 64 in
    let placed : shl 128 (mid % 2 ^ 64) 64 ≡ mid % 2 ^ 64 * 2 ^ 64 =
      mod-eq_of_lt {n = mid % 2 ^ 64 * 2 ^ 64} {m = 2 ^ 128} (omega arith) in
    let product = schoolbook a b in
    rw (
      bit_and_mask 64 a,
      bit_and_mask 64 b,
      bit_and_mask 64 lh,
      bit_and_mask 64 hl,
      bit_and_mask 64 ll,
      bit_and_mask 64 mid,
      placed,
      bit_or_fields 64 (mid % 2 ^ 64) (ll % 2 ^ 64) (omega arith),
      div_unique (2 ^ 128) (high ll lh hl hh) product (low_lt ll lh hl),
      mod_unique (2 ^ 128) (high ll lh hl hh) product (low_lt ll lh hl),
    )

-- The integer that a signed high word and a low word stand for.
abbrev pub joined : ℤ × ℕ → ℤ
joined w = pos (pos_part w.0 * 2 ^ 128 + w.1) -ℤ pos (neg_part w.0 * 2 ^ 128)

-- The product of an integer and a number.
abbrev pub scaled : ℤ → ℕ → ℤ
scaled a b = pos (pos_part a * b) -ℤ pos (neg_part a * b)

smul_pos : (a b : ℕ) → smul_i128_u128 (pos a) b ≡ (pos (a * b / 2 ^ 128), a * b % 2 ^ 128)
unfolding smul_i128_u128
smul_pos a b =
    let whole : a + 0 ≡ a = omega arith in
    rw (whole, widening_mul_u128_lem a b, le→ltb a 0 (omega arith))

-- The negated words: the high one, one less where a low word is borrowed from it.
abbrev negated : ℕ → ℕ → ℤ × ℕ
negated hi lo = if lo == 0 then (neg (pos hi), 0) else (neg (pos hi) -ℤ pos 1, wrapping_neg 128 lo)

smul_neg :
    (a b : ℕ) → smul_i128_u128 (negsuc a) b ≡ negated (suc a * b / 2 ^ 128) (suc a * b % 2 ^ 128)
unfolding smul_i128_u128
smul_neg a b =
    let whole : 0 + suc a ≡ suc a = omega arith in
    rw (whole, widening_mul_u128_lem (suc a) b, lt→ltb 0 (suc a) (omega arith))

neg_parts : (n : ℕ) → (pos_part (neg (pos n)) ≡ 0) × (neg_part (neg (pos n)) ≡ n)
neg_parts n = ground arith

one_less : (n : ℕ) → neg (pos n) -ℤ pos 1 ≡ negsuc n
one_less n =
    let (p, q) = neg_parts n in
    eq_of_parts (neg (pos n) -ℤ pos 1) (negsuc n) (omega (arith, -ℤ_parts (neg (pos n)) (pos 1)))

-- Two differences are equal where the crossed sums are.
difference_eq : (x y u v : ℕ) → x + v ≡ u + y → pos x -ℤ pos y ≡ pos u -ℤ pos v
difference_eq x y u v e =
    eq_of_parts (pos x -ℤ pos y) (pos u -ℤ pos v)
      (omega (arith, -ℤ_parts (pos x) (pos y), -ℤ_parts (pos u) (pos v)))

negated-joined :
    (hi lo : ℕ)
    → lo < 2 ^ 128
    → (joined (negated hi lo) ≡ pos 0 -ℤ pos (hi * 2 ^ 128 + lo)) × ((negated hi lo).1 < 2 ^ 128)
negated-joined hi lo h = elim (lt_or_ge 0 lo) [
  | inr z ↦
      let none : lo ≡ 0 = omega arith in
      let (p, n) = neg_parts hi in
      rw (none, p, n)
        (difference_eq 0 (hi * 2 ^ 128) 0 (hi * 2 ^ 128 + 0) (omega arith), omega arith)
  | inl some ↦
      let rest : (0 + 2 ^ 128 - lo) % 2 ^ 128 ≡ 2 ^ 128 - lo = omega arith in
      rw (pos_nonzero lo some, one_less hi, rest)
        (
          difference_eq (0 * 2 ^ 128 + (2 ^ 128 - lo)) (suc hi * 2 ^ 128) 0 (hi * 2 ^ 128 + lo)
              (omega arith),
          omega arith,
        )
]

-- For every integer and number, the signed high word and the low word of `smul_i128_u128` stand for
-- the exact product, and the low word is below 2^128.
pub smul_i128_u128_lem :
    (a : ℤ) (b : ℕ)
    → (joined (smul_i128_u128 a b) ≡ scaled a b) × ((smul_i128_u128 a b).1 < 2 ^ 128)
smul_i128_u128_lem (pos a) b = rw (smul_pos a b) (
  difference_eq (a * b / 2 ^ 128 * 2 ^ 128 + a * b % 2 ^ 128) (0 * 2 ^ 128) (a * b) (0 * b)
      (omega arith),
  omega arith,
)
smul_i128_u128_lem (negsuc a) b =
    let n = suc a * b in
    let (e, fits) = negated-joined (n / 2 ^ 128) (n % 2 ^ 128) (omega arith) in
    rw (smul_neg a b)
      (e ∙ difference_eq 0 (n / 2 ^ 128 * 2 ^ 128 + n % 2 ^ 128) (0 * b) n (omega arith), fits)
