-- ===== src/Bitmap/Rewrite.antt =====
-- About a change of the bitmap at one leaf word: where both summaries follow it, the invariant is kept.
use mathlib.Core.List.{List, [], ◌∷◌}
use rm_uniswap.Prelude.{
  ℕ, zero, suc, ◌+◌, ◌*◌, ◌/◌, ◌%◌, ◌^◌, ◌<◌, ◌≡◌, refl, sym, ap, ◌∙◌, arith, ◌==◌, Bool-cases,
  ==_iff, inl, inr, false,
}
use rm_uniswap.Bitmap.{HierBitmap, word_at, set_word}
use rm_uniswap.Bitmap.Well.{IsWell, present, sign, length}
use rm_uniswap.Word.Digits.{digit}

pub word_at-set_word : (ws : List ℕ) (i v : ℕ) → i < length ws → word_at (set_word ws i v) i ≡ v
unfolding word_at set_word length
word_at-set_word [] i v h = absurd (omega arith)
word_at-set_word (w ∷ ws) zero v h = refl
word_at-set_word (w ∷ ws) (suc i) v h = word_at-set_word ws i v (omega arith)

pub word_at-set_word_other :
    (ws : List ℕ) (i v j : ℕ) → (j == i) ≡ false → word_at (set_word ws i v) j ≡ word_at ws j
unfolding word_at set_word
word_at-set_word_other [] i v j h = refl
word_at-set_word_other (w ∷ ws) zero v zero h = cc h
word_at-set_word_other (w ∷ ws) zero v (suc j) h = refl
word_at-set_word_other (w ∷ ws) (suc i) v zero h = refl
word_at-set_word_other (w ∷ ws) (suc i) v (suc j) h =
    let h' : (j == i) ≡ false = ground arith in word_at-set_word_other ws i v j h'

pub length-set_word : (ws : List ℕ) (i v : ℕ) → length (set_word ws i v) ≡ length ws
unfolding set_word length
length-set_word [] i v = refl
length-set_word (w ∷ ws) zero v = refl
length-set_word (w ∷ ws) (suc i) v = ap (λ n. suc n) (length-set_word ws i v)

-- `c` is `b` with the leaf word `v` at `i`, and with the digits of the summaries that tell of it.
pub record Rewritten (b c : HierBitmap) (i v : ℕ) : Type 0 where
  pub cap_eq : c.cap ≡ b.cap
  pub length0_eq : length c.layer0 ≡ length b.layer0
  pub length1_eq : length c.layer1 ≡ length b.layer1
  pub leaf_same : word_at c.layer0 i ≡ v
  pub leaf_other : (j : ℕ) → (j == i) ≡ false → word_at c.layer0 j ≡ word_at b.layer0 j
  pub mid_same : digit (word_at c.layer1 (i / 64)) (i % 64) ≡ sign v
  pub mid_digits :
      (j : ℕ)
      → (j == i % 64) ≡ false
      → digit (word_at c.layer1 (i / 64)) j ≡ digit (word_at b.layer1 (i / 64)) j
  pub mid_other : (j : ℕ) → (j == i / 64) ≡ false → word_at c.layer1 j ≡ word_at b.layer1 j
  pub mid_word : word_at c.layer1 (i / 64) < 2 ^ 64
  pub top_same : digit c.layer2 (i / 64) ≡ sign (word_at c.layer1 (i / 64))
  pub top_other : (j : ℕ) → (j == i / 64) ≡ false → digit c.layer2 j ≡ digit b.layer2 j
  pub top_word : c.layer2 < 2 ^ 64

module _ (b c : HierBitmap) (i v : ℕ) (r : Rewritten b c i v) where
  pub present_here : (m : ℕ) → m / 64 ≡ i → present c m ≡ digit v (m % 64)
  present_here m e = rw (e, r.leaf_same) refl

  pub present_there : (m : ℕ) → (m / 64 == i) ≡ false → present c m ≡ present b m
  present_there m e = rw (r.leaf_other (m / 64) e) refl

  pub rewritten-IsWell :
      IsWell b → v < 2 ^ 64 → ((j : ℕ) → j < 64 → digit v j ≡ 1 → i * 64 + j < b.cap) → IsWell c
  rewritten-IsWell h word fits = record {
    cap_fits = rw r.cap_eq h.cap_fits;
    length0 = rw (r.cap_eq, r.length0_eq) h.length0;
    length1 = rw (r.length0_eq, r.length1_eq) h.length1;
    word0 = λ j. elim (Bool-cases (j == i)) [
      | inl same ↦ let e = (==_iff j i).0 same in rw (e, r.leaf_same) word
      | inr other ↦ rw (r.leaf_other j other) (h.word0 j)
    ];
    word1 = λ j. elim (Bool-cases (j == i / 64)) [
      | inl same ↦ let e = (==_iff j (i / 64)).0 same in rw e r.mid_word
      | inr other ↦ rw (r.mid_other j other) (h.word1 j)
    ];
    word2 = r.top_word;
    in_cap = λ k j l d. elim (Bool-cases (k == i)) [
      | inl same ↦
          let e = (==_iff k i).0 same in
          rw (r.cap_eq, e)
            (fits j l (
              sym (ap (λ w. digit w j) r.leaf_same)
              ∙ sym (ap (λ n. digit (word_at c.layer0 n) j) e)
              ∙ d))
      | inr other ↦
          rw r.cap_eq (h.in_cap k j l (sym (ap (λ w. digit w j) (r.leaf_other k other)) ∙ d))
    ];
    summary1 = λ k. elim (Bool-cases (k == i)) [
      | inl same ↦ let e = (==_iff k i).0 same in rw (e, r.leaf_same) r.mid_same
      | inr other ↦ elim (Bool-cases (k / 64 == i / 64)) [
        | inr far ↦ rw (r.leaf_other k other, r.mid_other (k / 64) far) (h.summary1 k)
        | inl near ↦
            let e = (==_iff (k / 64) (i / 64)).0 near in
            let apart : (k % 64 == i % 64) ≡ false = ground arith in
            rw (r.leaf_other k other) (
              ap (λ n. digit (word_at c.layer1 n) (k % 64)) e
              ∙ r.mid_digits (k % 64) apart
              ∙ sym (ap (λ n. digit (word_at b.layer1 n) (k % 64)) e)
              ∙ h.summary1 k)
      ]
    ];
    summary2 = λ k. elim (Bool-cases (k == i / 64)) [
      | inl same ↦ let e = (==_iff k (i / 64)).0 same in rw e r.top_same
      | inr other ↦ r.top_other k other ∙ h.summary2 k ∙ sym (ap sign (r.mid_other k other))
    ];
  }
