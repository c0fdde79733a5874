-- ===== src/TickMath/Inverse.antt =====
-- The tick of a price: the refinement of the logarithm, and the choice between the candidates.
use Prim.Native.Nat.{bit_or}
use native.Mathlib.Nat.{mod-eq_of_lt}
use rm_uniswap.Prelude.{
  ℕ, zero, suc, ◌+◌, ◌*◌, ◌/◌, ◌%◌, ◌^◌, ◌≤◌, ◌<◌, ◌≡◌, refl, arith, inl, inr, true, leb,
  if◌then◌else◌, lt_or_ge, Bool-cases, mul_le, mul_lt, le→leb, lt→leb,
}
use rm_uniswap.Prelude.Int.{ℤ, pos, negsuc, abs, eqb_ℤ, ◌+ℤ◌}
use rm_uniswap.TickMath.{
  clamp_i64_to_tick_index, refine_log2, tick_candidates, get_tick_at_sqrt_price,
  get_sqrt_price_at_tick,
}
use rm_uniswap.TickMath.Products.{widening_mul_u128_lem}
use rm_uniswap.Word.{shl}
use rm_uniswap.Word.Fields.{bit_or_fields}

-- The reference: square `r`, a fixed-point number in [1, 2) with 127 binary digits, and where the
-- square is at least 2, halve it and note a one. Every quotient is rounded down.
pub square_and_halve : ℕ → ℕ → ℤ → ℤ
square_and_halve zero r log2 = log2
square_and_halve (suc turns) r log2 =
    let f = if leb (2 ^ 255) (r * r) then 1 else 0 in
    square_and_halve turns (r * r / 2 ^ (127 + f)) (log2 +ℤ pos (f * 2 ^ (50 + turns)))

-- The two words of the square, shifted left by one bit.
shifted_square :
    (n : ℕ) → n < 2 ^ 255 → bit_or (shl 128 (n / 2 ^ 128) 1) (n % 2 ^ 128 / 2 ^ 127) ≡ n / 2 ^ 127
shifted_square n h =
    let hi = n / 2 ^ 128 in
    let kept : shl 128 hi 1 ≡ hi * 2 ^ 1 =
      mod-eq_of_lt {n = hi * 2 ^ 1} {m = 2 ^ 128} (omega arith) in
    rw (kept, bit_or_fields 1 hi (n % 2 ^ 128 / 2 ^ 127) (omega arith)) (omega arith)

-- For a ratio of 2^127 up to 2^128, the word arithmetic of the logarithm loop computes the
-- reference, for every number of turns and every start of the sum.
pub refine_log2-square_and_halve :
    (turns r : ℕ) (log2 : ℤ)
    → 2 ^ 127 ≤ r
    → r < 2 ^ 128
    → refine_log2 turns r log2 ≡ square_and_halve turns r log2
unfolding refine_log2 square_and_halve
refine_log2-square_and_halve zero r log2 low high = refl
refine_log2-square_and_halve (suc turns) r log2 low high =
    let n = r * r in
    let n_low = mul_le (2 ^ 127) (2 ^ 127) r r low low in
    let n_high = mul_lt r r (2 ^ 128) (2 ^ 128) high high in
    rw (widening_mul_u128_lem r r) (elim (lt_or_ge n (2 ^ 255)) [
      | inl below ↦
          let f : n / 2 ^ 128 / 2 ^ 127 ≡ 0 = omega arith in
          rw (f, lt→leb (2 ^ 255) n below, shifted_square n below)
            (refine_log2-square_and_halve turns (n / 2 ^ 127) (log2 +ℤ pos (0 * 2 ^ (50 + turns)))
              (omega arith) (omega arith))
      | inr above ↦
          let f : n / 2 ^ 128 / 2 ^ 127 ≡ 1 = omega arith in
          rw (f, le→leb (2 ^ 255) n above)
            (refine_log2-square_and_halve turns (n / 2 ^ 128) (log2 +ℤ pos (1 * 2 ^ (50 + turns)))
              (omega arith) (omega arith))
    ])

clamp_range : (tick : ℤ) → abs (clamp_i64_to_tick_index tick) ≤ 887272
unfolding clamp_i64_to_tick_index
clamp_range (pos n) = ground arith
clamp_range (negsuc n) = ground arith

candidates_range :
    (p : ℕ) → (abs (tick_candidates p).0 ≤ 887272) × (abs (tick_candidates p).1 ≤ 887272)
unfolding tick_candidates
candidates_range p = (clamp_range _, clamp_range _)

-- How the code chooses between the candidates `low` and `high`.
pub data Choice (p : ℕ) (low high chosen : ℤ) : Type 0 where
  agreed : low ≡ high → chosen ≡ low → Choice p low high chosen
  below_high : p < get_sqrt_price_at_tick high → chosen ≡ low → Choice p low high chosen
  reached_high : get_sqrt_price_at_tick high ≤ p → chosen ≡ high → Choice p low high chosen

eqb_ℤ_sound : (a b : ℤ) → eqb_ℤ a b ≡ true → a ≡ b
eqb_ℤ_sound a b h = ground arith

-- The tick of any number is at most 887272 in magnitude, and it is the lower candidate where the two
-- agree or the number is below the price of the upper one, and the upper one where its price is
-- reached.
pub get_tick_at_sqrt_price-Choice :
    (p : ℕ)
    → (abs (get_tick_at_sqrt_price p) ≤ 887272)
      × Choice p (tick_candidates p).0 (tick_candidates p).1 (get_tick_at_sqrt_price p)
unfolding get_tick_at_sqrt_price
get_tick_at_sqrt_price-Choice p =
    let low = (tick_candidates p).0 in
    let high = (tick_candidates p).1 in
    let (low_in, high_in) = candidates_range p in
    elim (Bool-cases (eqb_ℤ low high)) [
      | inl same ↦ rw same (low_in, agreed (eqb_ℤ_sound low high same) refl)
      | inr apart ↦ rw apart (elim (lt_or_ge p (get_sqrt_price_at_tick high)) [
        | inl lt ↦ rw (lt→leb (get_sqrt_price_at_tick high) p lt) (low_in, below_high lt refl)
        | inr ge ↦ rw (le→leb (get_sqrt_price_at_tick high) p ge) (high_in, reached_high ge refl)
      ])
    ]
