-- ===== src/Bitmap/Well.antt =====
-- About the bitmap: its invariant, and which keys are present.
use mathlib.Core.List.{List, [], ◌∷◌}
use Prim.Native.Nat.{bit_or}
use rm_uniswap.Prelude.{
  ℕ, suc, ◌+◌, ◌*◌, ◌/◌, ◌%◌, ◌^◌, ◌≤◌, ◌<◌, ◌≡◌, refl, sym, ap, ◌∙◌, arith, ◌==◌, if◌then◌else◌,
  some, lt→ltb,
}
use native.Mathlib.Nat.{mod-eq_of_lt}
use rm_uniswap.Bitmap.{HierBitmap, word_at, make_key}
use rm_uniswap.Word.{shl}
use rm_uniswap.Word.Digits.{digit, digit-zero}
use rm_uniswap.Word.Fields.{bit_or_fields}

unfoldable pub length : List ℕ → ℕ
length [] = 0
length (w ∷ ws) = suc (length ws)

-- One where the word has a digit.
abbrev pub sign : ℕ → ℕ
sign w = if w == 0 then 0 else 1

-- Is a key present: its digit in the leaf words.
abbrev pub present : HierBitmap → ℕ → ℕ
present b key = digit (word_at b.layer0 (key / 64)) (key % 64)

-- The layers are long enough for `cap`, they hold words and no key from `cap` on, and every digit of a
-- summary says whether its word below has a digit.
pub record IsWell (b : HierBitmap) : Type 0 where
  pub cap_fits : b.cap < 2 ^ 16
  pub length0 : b.cap ≤ 64 * length b.layer0
  pub length1 : length b.layer0 ≤ 64 * length b.layer1
  pub word0 : (i : ℕ) → word_at b.layer0 i < 2 ^ 64
  pub word1 : (i : ℕ) → word_at b.layer1 i < 2 ^ 64
  pub word2 : b.layer2 < 2 ^ 64
  pub in_cap : (i j : ℕ) → j < 64 → digit (word_at b.layer0 i) j ≡ 1 → i * 64 + j < b.cap
  pub summary1 : (i : ℕ) → digit (word_at b.layer1 (i / 64)) (i % 64) ≡ sign (word_at b.layer0 i)
  pub summary2 : (i : ℕ) → digit b.layer2 i ≡ sign (word_at b.layer1 i)

pub sign_pos : (w : ℕ) → sign w ≡ 1 → 0 < w
sign_pos w e = ground arith

pub sign_zero : (w : ℕ) → sign w ≡ 0 → w ≡ 0
sign_zero w e = ground arith

module _ (b : HierBitmap) (h : IsWell b) where
  -- A word of zeros has no key, in the leaves or below a summary.
  pub empty_word : (m : ℕ) → word_at b.layer0 (m / 64) ≡ 0 → present b m ≡ 0
  empty_word m e = rw e (digit-zero (m % 64))

  pub empty_digit :
      (m i : ℕ) → m / 64 / 64 ≡ i → digit (word_at b.layer1 i) (m / 64 % 64) ≡ 0 → present b m ≡ 0
  empty_digit m i e d = empty_word m (
      sign_zero (word_at b.layer0 (m / 64))
        (sym (h.summary1 (m / 64)) ∙ ap (λ k. digit (word_at b.layer1 k) (m / 64 % 64)) e ∙ d))

  pub empty_summary : (m : ℕ) → digit b.layer2 (m / 64 / 64) ≡ 0 → present b m ≡ 0
  empty_summary m d =
      let none : word_at b.layer1 (m / 64 / 64) ≡ 0 =
        sign_zero (word_at b.layer1 (m / 64 / 64)) (sym (h.summary2 (m / 64 / 64)) ∙ d) in
      empty_digit m (m / 64 / 64) refl (rw none (digit-zero (m / 64 % 64)))

  -- A digit of a summary leads to a word.
  pub below1 :
      (i j : ℕ) → j < 64 → digit (word_at b.layer1 i) j ≡ 1 → 0 < word_at b.layer0 (i * 64 + j)
  below1 i j l d =
      let q : (i * 64 + j) / 64 ≡ i = omega arith in
      let r : (i * 64 + j) % 64 ≡ j = omega arith in
      sign_pos (word_at b.layer0 (i * 64 + j)) (sym (h.summary1 (i * 64 + j)) ∙ rw (q, r) d)

  pub below2 : (i : ℕ) → digit b.layer2 i ≡ 1 → 0 < word_at b.layer1 i
  below2 i d = sign_pos (word_at b.layer1 i) (sym (h.summary2 i) ∙ d)

  pub joined : (i j : ℕ) → i < 2 ^ 58 → j < 64 → bit_or (shl 64 i 6) j ≡ i * 64 + j
  joined i j hi hj =
      let kept : shl 64 i 6 ≡ i * 2 ^ 6 = mod-eq_of_lt (omega arith) in
      rw kept (bit_or_fields 6 i j hj)

  -- The key of a digit of a leaf word.
  pub make_key_lem :
      (i j : ℕ) → j < 64 → digit (word_at b.layer0 i) j ≡ 1 → make_key b i j ≡ some (i * 64 + j)
  unfolding make_key
  make_key_lem i j hj d =
      let fits = h.in_cap i j hj d in
      let c = h.cap_fits in rw (joined i j (omega arith) hj, lt→ltb (i * 64 + j) b.cap fits) refl
