-- ===== src/Bitmap/Fresh.antt =====
-- About `new`: a new bitmap keeps the invariant and has no key.
use rm_uniswap.Prelude.{
  ℕ, zero, suc, ◌/◌, ◌%◌, ◌^◌, ◌<◌, ◌≡◌, refl, ap, arith, div_ceil, le_mul_div_ceil,
}
use rm_uniswap.Bitmap.{word_at, zeros, new_bitmap}
use rm_uniswap.Bitmap.Well.{IsWell, present, length}
use rm_uniswap.Word.Digits.{digit, digit-zero}

word_at-zeros : (n i : ℕ) → word_at (zeros n) i ≡ 0
unfolding zeros word_at
word_at-zeros zero i = refl
word_at-zeros (suc n) zero = refl
word_at-zeros (suc n) (suc i) = word_at-zeros n i

length-zeros : (n : ℕ) → length (zeros n) ≡ n
unfolding zeros length
length-zeros zero = refl
length-zeros (suc n) = ap (λ k. suc k) (length-zeros n)

-- A new bitmap keeps the invariant and has no key.
pub new_bitmap-IsWell :
    (cap : ℕ) → cap < 2 ^ 16 → IsWell (new_bitmap cap) × ((m : ℕ) → present (new_bitmap cap) m ≡ 0)
unfolding new_bitmap
new_bitmap-IsWell cap fits =
    let n0 = div_ceil cap 64 in
    let n1 = div_ceil n0 64 in
    (
      record {
        cap_fits = fits;
        length0 = rw (length-zeros n0) (omega (arith, le_mul_div_ceil cap 64 (omega arith)));
        length1 =
            rw (length-zeros n0, length-zeros n1)
              (omega (arith, le_mul_div_ceil n0 64 (omega arith)));
        word0 = λ i. rw (word_at-zeros n0 i) (omega arith);
        word1 = λ i. rw (word_at-zeros n1 i) (omega arith);
        word2 = omega arith;
        in_cap = λ i j l d.
            let z : digit (word_at (zeros n0) i) j ≡ 0 = rw (word_at-zeros n0 i) (digit-zero j) in
            absurd (omega arith);
        summary1 = λ i. rw (word_at-zeros n0 i, word_at-zeros n1 (i / 64)) (digit-zero (i % 64));
        summary2 = λ i. rw (word_at-zeros n1 i) (digit-zero i);
      },
      λ m. rw (word_at-zeros n0 (m / 64)) (digit-zero (m % 64)),
    )
