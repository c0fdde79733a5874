-- ===== src/BalanceDelta/Narrow.antt =====
-- About the conversions of a `U256` to an `i128`.
use Prim.Native.Nat.{bit_or}
use rm_uniswap.Prelude.{
  ℕ, ◌+◌, ◌*◌, ◌/◌, ◌%◌, ◌^◌, ◌≤◌, ◌<◌, ◌≡◌, refl, arith, inl, inr, false, not, ltb, leb, ◌==◌,
  if◌then◌else◌, ◌&&◌, ◌||◌, lt_or_ge, lt→ltb, le→ltb, le→leb, lt→leb, pos_nonzero,
}
use rm_uniswap.Prelude.Int.{pos, neg}
use rm_uniswap.Error.{ok, err, amount_overflow}
use rm_uniswap.BalanceDelta.{
  u256_to_i128_positive, u256_to_i128_negative, as_i128, wrapping_neg_i128,
}
use rm_uniswap.SmallRatio.{limb}
use rm_uniswap.Word.{shl}
use rm_uniswap.Word.Fields.{bit_or_fields, bit_or_eq_zero}

-- The upper half is zero exactly where the number is below 2^128.
upper_zero : (n : ℕ) → n < 2 ^ 128 → bit_or (limb 2 n) (limb 3 n) ≡ 0
upper_zero n h =
    let two : n / 2 ^ 128 % 2 ^ 64 ≡ 0 = omega arith in
    let three : n / 2 ^ 192 % 2 ^ 64 ≡ 0 = omega arith in rw (two, three) refl

upper_nonzero : (n : ℕ) → 2 ^ 128 ≤ n → n < 2 ^ 256 → (bit_or (limb 2 n) (limb 3 n) == 0) ≡ false
upper_nonzero n h g =
    pos_nonzero (bit_or (limb 2 n) (limb 3 n)) (elim (lt_or_ge 0 (bit_or (limb 2 n) (limb 3 n))) [
      | inl lt ↦ lt
      | inr z ↦
          let (two, three) = bit_or_eq_zero (limb 2 n) (limb 3 n) (omega arith) in
          let two' : n / 2 ^ 128 % 2 ^ 64 ≡ 0 = two in
          let three' : n / 2 ^ 192 % 2 ^ 64 ≡ 0 = three in absurd (omega arith)
    ])

-- The lower two limbs make the number again.
lower_half : (n : ℕ) → n < 2 ^ 128 → bit_or (shl 128 (limb 1 n) 64) (limb 0 n) ≡ n
lower_half n h =
    let one : n / 2 ^ 64 % 2 ^ 64 ≡ n / 2 ^ 64 = omega arith in
    let zero_th : n / 1 % 2 ^ 64 ≡ n % 2 ^ 64 = omega arith in
    let placed : n / 2 ^ 64 * 2 ^ 64 % 2 ^ 128 ≡ n / 2 ^ 64 * 2 ^ 64 = omega arith in
    rw (one, zero_th, placed, bit_or_fields 64 (n / 2 ^ 64) (n % 2 ^ 64) (omega arith))
      (omega arith)

-- The top bit of the lower half.
top_bit : (n : ℕ) → n < 2 ^ 128 → limb 1 n / 2 ^ 63 ≡ n / 2 ^ 127
top_bit n h = omega arith

-- A 256-bit amount becomes the positive `i128` of the same value where it is below 2^127, and is
-- refused otherwise.
pub u256_to_i128_positive_lem :
    (n : ℕ)
    → n < 2 ^ 256
    → u256_to_i128_positive n ≡ (if ltb n (2 ^ 127) then ok (pos n) else err amount_overflow)
unfolding u256_to_i128_positive
u256_to_i128_positive_lem n h = elim (lt_or_ge n (2 ^ 128)) [
  | inr wide ↦ rw (upper_nonzero n wide h, le→ltb n (2 ^ 127) (omega arith))
  | inl narrow ↦
      rw (upper_zero n narrow, lower_half n narrow, top_bit n narrow)
        (elim (lt_or_ge n (2 ^ 127)) [
          | inl small ↦ let z : n / 2 ^ 127 ≡ 0 = omega arith in rw (z, lt→ltb n (2 ^ 127) small)
          | inr big ↦ rw (pos_nonzero (n / 2 ^ 127) (omega arith), le→ltb n (2 ^ 127) big)
        ])
]

-- The word of the least `i128` is its own negation.
wrapped : (n : ℕ) → n ≤ 2 ^ 127 → wrapping_neg_i128 (as_i128 n) ≡ neg (pos n)
wrapped n h = elim (lt_or_ge n (2 ^ 127)) [
  | inl small ↦ rw (lt→ltb n (2 ^ 127) small) (ground arith)
  | inr big ↦ let e : n ≡ 2 ^ 127 = omega arith in rw e refl
]

-- The guard on the two limbs is the comparison with 2^127.
over_limit :
    (hi lo n : ℕ)
    → n ≡ hi * 2 ^ 64 + lo
    → lo < 2 ^ 64
    → (ltb (2 ^ 63) hi || ((hi == 2 ^ 63) && not (lo == 0))) ≡ ltb (2 ^ 127) n
over_limit hi lo n e h = ground arith

-- A 256-bit amount becomes the negated `i128` of the same value where it is at most 2^127, and is
-- refused otherwise.
pub u256_to_i128_negative_lem :
    (n : ℕ)
    → n < 2 ^ 256
    → u256_to_i128_negative n ≡ (if leb n (2 ^ 127) then ok (neg (pos n)) else err amount_overflow)
unfolding u256_to_i128_negative
u256_to_i128_negative_lem n h = elim (lt_or_ge n (2 ^ 128)) [
  | inr wide ↦ rw (upper_nonzero n wide h, lt→leb n (2 ^ 127) (omega arith))
  | inl narrow ↦
      let guard = over_limit (limb 1 n) (limb 0 n) n (omega arith) (omega arith) in
      rw (upper_zero n narrow, lower_half n narrow, guard)
        (elim (lt_or_ge (2 ^ 127) n) [
          | inl big ↦ rw (lt→leb n (2 ^ 127) big, lt→ltb (2 ^ 127) n big)
          | inr small ↦ rw (le→leb n (2 ^ 127) small, le→ltb (2 ^ 127) n small, wrapped n small)
        ])
]
