-- ===== src/TickKey/Key.antt =====
-- About the key of a tick: its order, its round trip, and its page and slot.
use native.Mathlib.Nat.{div-add-mod', le_refl}
use native.Mathlib.Nat.{div-le_self}
use rm_uniswap.Prelude.{
  ℕ, suc, ◌+◌, ◌-◌, ◌*◌, ◌/◌, ◌%◌, ◌^◌, ◌≤◌, ◌<◌, ◌≡◌, ◌↔◌, ap, ◌∙◌, arith, inl, inr, true, ==_iff,
  lt_or_ge, div_unique, div_lt_of_lt_mul, mul_le, pred_mul,
}
use rm_uniswap.Prelude.Int.{ℤ, pos, negsuc, ◌<ℤ◌, abs, neg}
use rm_uniswap.TickKey.{
  from_tick, to_tick, key_bits, div_euclid, times, for_spacing, from_parts, slot_index, cache_index,
  encode,
}
use rm_uniswap.TickKey.Encoding.{
  encode_lt, Fits, fits_pos, fits_neg, shifted_up, encode-shifted_up, decode-shifted_up,
}
use rm_uniswap.Word.{bit_len}
use rm_uniswap.Word.Count.{bit_len-le, lt_pow_bit_len, leading_zeros_lem}
use rm_uniswap.Word.Fields.{bit_and_mask, bit_or_fields}
use rm_uniswap.Word.Pow.{two_pow_add, two_pow_suc, two_pow_le}

-- A spacing of the type and a tick of the protocol's range.
pub record IsSpacing (s : ℕ) : Type 0 where
  pub positive : 0 < s
  pub fits : s < 2 ^ 15

-- The length of a spacing in bits.
length_bounds :
    (s : ℕ) → IsSpacing s → (0 < bit_len 32 s) × (bit_len 32 s ≤ 15) × (2 ^ (bit_len 32 s - 1) ≤ s)
length_bounds s hs =
    let bl = bit_len 32 s in
    let covers = lt_pow_bit_len 32 s (omega arith) in
    let some : 0 < bl = elim (lt_or_ge 0 bl) [
      | inl lt ↦ lt
      | inr z ↦ absurd (omega (arith, two_pow_le bl 0 z))
    ] in
    let reaches : 2 ^ (bl - 1) ≤ s = elim (lt_or_ge s (2 ^ (bl - 1))) [
      | inl lt ↦ absurd (omega (arith, bit_len-le 32 s (bl - 1) lt))
      | inr ge ↦ ge
    ] in
    (some, bit_len-le 32 s 15 hs.fits, reaches)

module _ (s : ℕ) (hs : IsSpacing s) where
  -- The bits of a key below its sign.
  abbrev field : ℕ
  field = 21 - bit_len 32 s

  key_bits_lem : key_bits s ≡ suc field
  key_bits_lem = let bounds = length_bounds s hs in omega (arith, leading_zeros_lem 32 s)

  compressed_lt : (n : ℕ) → n ≤ 887272 → n / s < 2 ^ field
  compressed_lt n h =
      let (some, short, reaches) = length_bounds s hs in
      div_lt_of_lt_mul n s (2 ^ field) hs.positive (
        omega (
          arith,
          two_pow_add field (bit_len 32 s - 1) 20 (omega arith),
          mul_le (2 ^ field) (2 ^ (bit_len 32 s - 1)) (2 ^ field) s (le_refl _) reaches,
        ))

  compressed-Fits : (t : ℤ) → abs t ≤ 887272 → Fits field (div_euclid t s)
  compressed-Fits (pos n) h = fits_pos (compressed_lt n (omega arith))
  compressed-Fits (negsuc n) h = fits_neg (compressed_lt n (omega arith))

  from_tick_lem : (t : ℤ) → abs t ≤ 887272 → from_tick t s ≡ shifted_up field (div_euclid t s)
  unfolding from_tick
  from_tick_lem t h =
      ap (encode (div_euclid t s)) key_bits_lem
      ∙ encode-shifted_up field (omega arith) (div_euclid t s) (compressed-Fits t h)

  to_tick_lem : (t : ℤ) → abs t ≤ 887272 → to_tick (from_tick t s) s ≡ times (div_euclid t s) s
  unfolding to_tick
  to_tick_lem t h = rw (
    from_tick_lem t h,
    key_bits_lem,
    decode-shifted_up field (omega arith) (div_euclid t s) (compressed-Fits t h),
  )

-- Moving up keeps the order.
shifted_up_order :
    (k : ℕ) (c d : ℤ) → Fits k c → Fits k d → (shifted_up k c < shifted_up k d) ↔ (c <ℤ d)
shifted_up_order k (pos m) (pos n) (fits_pos h) (fits_pos g) =
    ((λ e. omega arith), λ e. omega arith)
shifted_up_order k (pos m) (negsuc n) (fits_pos h) (fits_neg g) =
    ((λ e. omega arith), λ e. omega arith)
shifted_up_order k (negsuc m) (pos n) (fits_neg h) (fits_pos g) =
    ((λ e. omega arith), λ e. omega arith)
shifted_up_order k (negsuc m) (negsuc n) (fits_neg h) (fits_neg g) =
    ((λ e. omega arith), λ e. omega arith)

-- For two ticks of at most 887272 in magnitude and a nonzero 15-bit spacing, the key of the one is
-- below the key of the other exactly where its quotient by the spacing, rounded down, is.
pub from_tick-order :
    (t u : ℤ) (s : ℕ)
    → abs t ≤ 887272
    → abs u ≤ 887272
    → IsSpacing s
    → (from_tick t s < from_tick u s) ↔ (div_euclid t s <ℤ div_euclid u s)
from_tick-order t u s ht hu hs =
    rw (from_tick_lem s hs t ht, from_tick_lem s hs u hu)
      (shifted_up_order (field s hs) (div_euclid t s) (div_euclid u s) (compressed-Fits s hs t ht)
        (compressed-Fits s hs u hu))

neg-suc : (n : ℕ) → neg (pos (suc n)) ≡ negsuc n
neg-suc n = ground arith

-- An aligned tick is the product of its quotient and the spacing.
pub times-div_euclid :
    (t : ℤ) (s : ℕ) → 0 < s → for_spacing t s ≡ true → times (div_euclid t s) s ≡ t
times-div_euclid (pos n) s positive aligned =
    let zero_rest : (n + 0) % s ≡ 0 = (==_iff ((n + 0) % s) 0).0 aligned in
    let whole : n + 0 ≡ n = omega arith in
    ap pos (omega (arith, div-add-mod' n s, ap (λ (t : ℕ). t % s) whole))
times-div_euclid (negsuc n) s positive aligned =
    let zero_rest : (0 + suc n) % s ≡ 0 = (==_iff ((0 + suc n) % s) 0).0 aligned in
    let whole : 0 + suc n ≡ suc n = omega arith in
    let q = suc n / s in
    let exact : suc n ≡ q * s =
      omega (arith, div-add-mod' (suc n) s, ap (λ (t : ℕ). t % s) whole) in
    let some : 0 < q = elim (lt_or_ge 0 q) [
      | inl lt ↦ lt
      | inr z ↦ let none : q ≡ 0 = omega arith in absurd (omega (arith, ap (λ (t : ℕ). t * s) none))
    ] in
    let below : n / s ≡ q - 1 =
      div_unique s (q - 1) {r = s - 1} (omega (arith, pred_mul q s some)) (omega arith) in
    let back : (n / s + 1) * s ≡ suc n =
      omega (arith, ap (λ (t : ℕ). (t + 1) * s) below, pred_mul q s some) in
    rw back (neg-suc n)

-- For a tick of at most 887272 in magnitude and a nonzero 15-bit spacing that divides it, `to_tick`
-- of the key from `from_tick` is the tick.
pub to_tick-from_tick :
    (t : ℤ) (s : ℕ)
    → abs t ≤ 887272
    → IsSpacing s
    → for_spacing t s ≡ true
    → to_tick (from_tick t s) s ≡ t
to_tick-from_tick t s ht hs aligned =
    to_tick_lem s hs t ht ∙ times-div_euclid t s hs.positive aligned

shifted_up_lt : (k : ℕ) (c : ℤ) → Fits k c → shifted_up k c < 2 ^ suc k
shifted_up_lt k (pos n) (fits_pos h) = omega (arith, two_pow_suc k)
shifted_up_lt k (negsuc n) (fits_neg h) = omega (arith, two_pow_suc k)

-- The page and the slot of a key below 2^21 put it together again.
from_parts_lem : (k : ℕ) → k < 2 ^ 21 → from_parts (cache_index k) (slot_index k) ≡ k
unfolding from_parts cache_index slot_index
from_parts_lem k h =
    let page : k / 2 ^ 5 % 2 ^ 16 ≡ k / 2 ^ 5 = omega arith in
    let placed : k / 2 ^ 5 * 2 ^ 5 % 2 ^ 32 ≡ k / 2 ^ 5 * 2 ^ 5 = omega arith in
    let slot : k % 2 ^ 5 % 2 ^ 5 ≡ k % 2 ^ 5 = omega arith in
    rw
      (
        bit_and_mask 5 k,
        bit_and_mask 16 (k / 2 ^ 5),
        bit_and_mask 5 (k % 2 ^ 5),
        page,
        placed,
        slot,
        bit_or_fields 5 (k / 2 ^ 5) (k % 2 ^ 5) (omega arith),
      )
      (omega arith)

-- A key has 21 bits.
pub from_tick_lt : (t : ℤ) (s : ℕ) → IsSpacing s → from_tick t s < 2 ^ 21
unfolding from_tick
from_tick_lt t s hs = omega (
  arith,
  ap (encode (div_euclid t s)) (key_bits_lem s hs),
  encode_lt (field s hs) (omega arith) (div_euclid t s),
  two_pow_le (suc (field s hs)) 21 (omega (arith, length_bounds s hs)),
)

-- For a tick of at most 887272 in magnitude and a nonzero 15-bit spacing, `from_parts` of the page
-- and the slot of its key is the key.
pub from_parts-from_tick :
    (t : ℤ) (s : ℕ)
    → abs t ≤ 887272
    → IsSpacing s
    → from_parts (cache_index (from_tick t s)) (slot_index (from_tick t s)) ≡ from_tick t s
from_parts-from_tick t s ht hs = from_parts_lem (from_tick t s) (from_tick_lt t s hs)

-- The greatest key of a spacing.
pub from_tick-max_le : (s : ℕ) → IsSpacing s → from_tick (pos 887272) s ≤ 2 ^ 20 + 887272
from_tick-max_le s hs =
    let (some, short, reaches) = length_bounds s hs in
    let less : 887272 / s ≤ 887272 = div-le_self 887272 s in
    omega (
      arith,
      from_tick_lem s hs (pos 887272) (omega arith),
      two_pow_le (field s hs) 20 (omega arith),
    )
