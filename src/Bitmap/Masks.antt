-- ===== src/Bitmap/Masks.antt =====
-- About the masks of the bitmap: the lowest and the highest digit of a word under a mask.
use Prim.Native.Nat.{bit_and}
use rm_uniswap.Prelude.{
  ℕ, suc, ◌+◌, ◌-◌, ◌*◌, ◌^◌, ◌≤◌, ◌<◌, ◌≡◌, inl, inr, arith, min, ◌==◌, Bool-cases, ==_iff,
  lt_or_ge, mod_unique, le_div_of_mul_le, div_lt_of_lt_mul, pred_mul,
}
use rm_uniswap.Bitmap.{bits_from, bits_after, bits_through, bits_before, highest_set_bit, u64_max}
use rm_uniswap.Word.{shl, leading_zeros, trailing_zeros}
use rm_uniswap.Word.Count.{leading_zeros_lem}
use rm_uniswap.Word.Digits.{
  digit, digit_le, digit-bit_and, digit-zero, digit-complement, digit-mask_below, digit-above,
  trailing_zeros_least, bit_len_greatest, bit_and_le,
}
use rm_uniswap.Word.Pow.{two_pow_pos, two_pow_add, two_pow_le}

-- The digits of a mask: from `lo` on, or below `hi`.
pub record IsUpper (mask lo : ℕ) : Type 0 where
  pub under : (i : ℕ) → i < lo → digit mask i ≡ 0
  pub over : (i : ℕ) → lo ≤ i → i < 64 → digit mask i ≡ 1

pub record IsLower (mask hi : ℕ) : Type 0 where
  pub under : (i : ℕ) → i < hi → digit mask i ≡ 1
  pub over : (i : ℕ) → hi ≤ i → digit mask i ≡ 0

pow_lt : (k : ℕ) → k < 64 → 2 * 2 ^ k ≤ 2 ^ 64
pow_lt k h =
    omega (arith, two_pow_le (suc k) 64 (omega arith), two_pow_add 1 k (suc k) (omega arith))

shifted_ones : (k : ℕ) → k < 64 → shl 64 u64_max k ≡ 2 ^ 64 - 1 - (2 ^ k - 1)
shifted_ones k h =
    let p = pow_lt k h in
    let q = two_pow_pos k in mod_unique (2 ^ 64) (2 ^ k - 1) (omega arith) (omega arith)

pub bits_from-IsUpper : (k : ℕ) → k < 64 → IsUpper (bits_from k) k
bits_from-IsUpper k h =
    let p = pow_lt k h in
    let q = two_pow_pos k in
    rw (shifted_ones k h) (record {
      under = λ i l. omega (
        arith,
        digit-complement 64 (2 ^ k - 1) i (omega arith) (omega arith),
        digit-mask_below k i l,
      );
      over = λ i l m. omega (
        arith,
        digit-complement 64 (2 ^ k - 1) i (omega arith) m,
        digit-above k (2 ^ k - 1) i (omega arith) l,
      );
    })

pub bits_after-IsUpper : (k : ℕ) → k < 64 → IsUpper (bits_after k) (k + 1)
bits_after-IsUpper k h = elim (Bool-cases (k == 63)) [
  | inl last ↦ rw last (record {
    under = λ i l. digit-zero i;
    over = λ i l m. absurd (omega (arith, (==_iff k 63).0 last));
  })
  | inr other ↦ rw other (bits_from-IsUpper (k + 1) (ground arith))
]

pub bits_through-IsLower : (k : ℕ) → k < 64 → IsLower (bits_through k) (suc k)
bits_through-IsLower k h =
    let whole : 2 ^ 64 ≡ 2 ^ suc k * 2 ^ (63 - k) = two_pow_add (suc k) (63 - k) 64 (omega arith) in
    let same : bits_through k ≡ 2 ^ suc k - 1 =
      (let d = two_pow_pos (63 - k) in
        let q = two_pow_pos (suc k) in
        let tail = pred_mul (2 ^ suc k) (2 ^ (63 - k)) q in
        omega (
          arith,
          le_div_of_mul_le u64_max (2 ^ (63 - k)) (2 ^ suc k - 1) d (omega arith),
          div_lt_of_lt_mul u64_max (2 ^ (63 - k)) (2 ^ suc k) d (omega arith),
        )) in
    let q = two_pow_pos (suc k) in
    rw same (record {
      under = λ i l. digit-mask_below (suc k) i l;
      over = λ i l. digit-above (suc k) (2 ^ suc k - 1) i (omega arith) l;
    })

pub bits_before-IsLower : (k : ℕ) → k < 64 → IsLower (bits_before k) k
bits_before-IsLower k h = elim (Bool-cases (k == 0)) [
  | inl none ↦ rw none (record {
    under = λ i l. absurd (omega (arith, (==_iff k 0).0 none));
    over = λ i l. digit-zero i;
  })
  | inr other ↦
      let p = pow_lt k h in
      let q = two_pow_pos k in
      let one : shl 64 1 k ≡ 2 ^ k = mod_unique (2 ^ 64) 0 (omega arith) (omega arith) in
      rw (other, one)
        (record {
          under = λ i l. digit-mask_below k i l;
          over = λ i l. digit-above k (2 ^ k - 1) i (omega arith) l;
        })
]

-- The lowest digit of `w` from `lo` on, and the highest one below `hi`.
pub record Least (w lo t : ℕ) : Type 0 where
  pub fits : t < 64
  pub from : lo ≤ t
  pub found : digit w t ≡ 1
  pub least : (i : ℕ) → lo ≤ i → i < t → digit w i ≡ 0

pub record Greatest (w hi t : ℕ) : Type 0 where
  pub below : t < hi
  pub found : digit w t ≡ 1
  pub greatest : (i : ℕ) → t < i → i < hi → digit w i ≡ 0

module _ (w mask : ℕ) (word : w < 2 ^ 64) where
  masked : (i : ℕ) → digit (bit_and w mask) i ≡ min (digit w i) (digit mask i)
  masked i = digit-bit_and w mask i

  pub none_over :
      (lo i : ℕ) → IsUpper mask lo → bit_and w mask ≡ 0 → lo ≤ i → i < 64 → digit w i ≡ 0
  none_over lo i up e l m =
      let d : digit (bit_and w mask) i ≡ 0 = rw e (digit-zero i) in
      omega (arith, masked i, up.over i l m, digit_le w i)

  pub Least-over :
      (lo : ℕ)
      → IsUpper mask lo
      → 0 < bit_and w mask
      → Least w lo (trailing_zeros 64 (bit_and w mask))
  Least-over lo up p =
      let t = trailing_zeros 64 (bit_and w mask) in
      let (fits, found, least) =
        trailing_zeros_least 64 (bit_and w mask) p (omega (arith, bit_and_le w mask)) in
      record {
        fits = fits;
        from = elim (lt_or_ge t lo) [
          | inl l ↦ absurd (omega (arith, masked t, up.under t l))
          | inr g ↦ g
        ];
        found = omega (arith, masked t, digit_le w t, digit_le mask t);
        least =
            λ i l m. omega (arith, least i m, masked i, up.over i l (omega arith), digit_le w i);
      }

  pub none_under : (hi i : ℕ) → IsLower mask hi → bit_and w mask ≡ 0 → i < hi → digit w i ≡ 0
  none_under hi i low e l =
      let d : digit (bit_and w mask) i ≡ 0 = rw e (digit-zero i) in
      omega (arith, masked i, low.under i l, digit_le w i)

  pub Greatest-under :
      (hi : ℕ)
      → IsLower mask hi
      → 0 < bit_and w mask
      → Greatest w hi (highest_set_bit (bit_and w mask))
  unfolding highest_set_bit
  Greatest-under hi low p =
      let (t, len, fits, found, above) =
        bit_len_greatest 64 (bit_and w mask) p (omega (arith, bit_and_le w mask)) in
      let same : 63 - leading_zeros 64 (bit_and w mask) ≡ t =
        omega (arith, leading_zeros_lem 64 (bit_and w mask)) in
      rw same (record {
        below = elim (lt_or_ge t hi) [
          | inl l ↦ l
          | inr g ↦ absurd (omega (arith, masked t, low.over t g))
        ];
        found = omega (arith, masked t, digit_le w t, digit_le mask t);
        greatest = λ i l m. omega (arith, above i l, masked i, low.under i m, digit_le w i);
      })

pub Least-of : (w : ℕ) → 0 < w → w < 2 ^ 64 → Least w 0 (trailing_zeros 64 w)
Least-of w p h =
    let (fits, found, least) = trailing_zeros_least 64 w p h in
    record { fits = fits; from = omega arith; found = found; least = λ i l m. least i m }

pub Greatest-of : (w : ℕ) → 0 < w → w < 2 ^ 64 → Greatest w 64 (highest_set_bit w)
unfolding highest_set_bit
Greatest-of w p h =
    let (t, len, fits, found, above) = bit_len_greatest 64 w p h in
    let same : 63 - leading_zeros 64 w ≡ t = omega (arith, leading_zeros_lem 64 w) in
    rw same (record { below = fits; found = found; greatest = λ i l m. above i l })
