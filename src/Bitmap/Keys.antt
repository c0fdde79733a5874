-- ===== src/Bitmap/Keys.antt =====
-- About `contains`, and about the bitmap after a change of one digit of a leaf word.
use Prim.Native.Nat.{bit_and}
use rm_uniswap.Prelude.{
  ℕ, ◌/◌, ◌%◌, ◌^◌, ◌<◌, ◌≡◌, refl, sym, ap, ◌∙◌, arith, true, false, not, ◌==◌, if◌then◌else◌,
  if_true, if_false, Bool-cases, ==_iff, inl, inr, lt_or_ge, lt→leb, le→leb, pos_nonzero,
  mod_unique,
}
use rm_uniswap.Bitmap.{HierBitmap, word_at, set_word, contains}
use rm_uniswap.Bitmap.Rewrite.{
  Rewritten, rewritten-IsWell, present_here, present_there, word_at-set_word,
  word_at-set_word_other, length-set_word,
}
use rm_uniswap.Bitmap.Search.{none_beyond}
use rm_uniswap.Bitmap.Well.{IsWell, present, sign, length}
use rm_uniswap.Word.{shl, trailing_zeros}
use rm_uniswap.Word.Digits.{
  digit, digit_le, digit-zero, digit-bit_and, digit-pow_same, digit-pow_other, trailing_zeros_least,
  bit_and_le, two_pow_lt,
}
use rm_uniswap.Word.Fields.{bit_and_mask}

pub one_bit : (k : ℕ) → k < 64 → shl 64 1 k ≡ 2 ^ k
one_bit k h = mod_unique (2 ^ 64) 0 (omega arith) (two_pow_lt k h)

pub sign_one : (w : ℕ) → 0 < w → sign w ≡ 1
sign_one w p = rw (pos_nonzero w p) refl

pub nonzero_of : (w m : ℕ) → (bit_and w m == 0) ≡ false → 0 < w
nonzero_of w m e =
    let p : 0 < bit_and w m = elim (lt_or_ge 0 (bit_and w m)) [
      | inl some ↦ some
      | inr none ↦ let z : bit_and w m ≡ 0 = omega arith in cc ((==_iff (bit_and w m) 0).1 z, e)
    ] in
    omega (arith, bit_and_le w m)

-- A word under one bit.
pub marked : (w k : ℕ) → w < 2 ^ 64 → (bit_and w (2 ^ k) == 0) ≡ (digit w k == 0)
marked w k h = elim (lt_or_ge 0 (bit_and w (2 ^ k))) [
  | inl p ↦
      let (fits, found, least) =
        trailing_zeros_least 64 (bit_and w (2 ^ k)) p (omega (arith, bit_and_le w (2 ^ k))) in
      let t = trailing_zeros 64 (bit_and w (2 ^ k)) in
      elim (Bool-cases (t == k)) [
        | inl same ↦
            let e = (==_iff t k).0 same in
            let one : digit (bit_and w (2 ^ k)) k ≡ 1 =
              sym (ap (λ n. digit (bit_and w (2 ^ k)) n) e) ∙ found in
            let on : digit w k ≡ 1 =
              omega (arith, digit-bit_and w (2 ^ k) k, digit_le w k, digit-pow_same k) in
            rw (pos_nonzero (bit_and w (2 ^ k)) p, on) refl
        | inr other ↦ absurd (omega (arith, digit-bit_and w (2 ^ k) t, digit-pow_other k t other))
      ]
  | inr none ↦
      let z : bit_and w (2 ^ k) ≡ 0 = omega arith in
      let zd : digit (bit_and w (2 ^ k)) k ≡ 0 = rw z (digit-zero k) in
      let off : digit w k ≡ 0 =
        omega (arith, digit-bit_and w (2 ^ k) k, digit_le w k, digit-pow_same k) in
      rw (z, off) refl
]

-- A key is contained where it is present.
pub contains_lem : (b : HierBitmap) (m : ℕ) → IsWell b → contains b m ≡ not (present b m == 0)
unfolding contains
contains_lem b m h = elim (lt_or_ge m b.cap) [
  | inr out ↦ rw (le→leb b.cap m out, none_beyond b h m out) refl
  | inl within ↦
      rw
        (
          lt→leb b.cap m within,
          bit_and_mask 6 m,
          one_bit (m % 64) (omega arith),
          marked (word_at b.layer0 (m / 64)) (m % 64) (h.word0 (m / 64)),
        )
        refl
]

module _ (b : HierBitmap) (h : IsWell b) (key : ℕ) (within : key < b.cap) where
  abbrev leaf : ℕ
  leaf = word_at b.layer0 (key / 64)

  abbrev mid : ℕ
  mid = word_at b.layer1 (key / 64 / 64)

  leaf_in : key / 64 < length b.layer0
  leaf_in = omega (arith, h.length0)

  mid_in : key / 64 / 64 < length b.layer1
  mid_in = omega (arith, leaf_in, h.length1)

  pub top_small : key / 64 / 64 < 64
  top_small = omega (arith, h.cap_fits)

  module _ (v : ℕ) where
    abbrev pub with_leaf : HierBitmap
    with_leaf = record b { layer0 = set_word b.layer0 (key / 64) v }

    -- The leaf alone, where it stays empty or not empty.
    pub Rewritten-leaf : sign v ≡ sign leaf → Rewritten b with_leaf (key / 64) v
    Rewritten-leaf e = record {
      cap_eq = refl;
      length0_eq = length-set_word b.layer0 (key / 64) v;
      length1_eq = refl;
      leaf_same = word_at-set_word b.layer0 (key / 64) v leaf_in;
      leaf_other = λ j other. word_at-set_word_other b.layer0 (key / 64) v j other;
      mid_same = h.summary1 (key / 64) ∙ sym e;
      mid_digits = λ j other. refl;
      mid_other = λ j other. refl;
      mid_word = h.word1 (key / 64 / 64);
      top_same = h.summary2 (key / 64 / 64);
      top_other = λ j other. refl;
      top_word = h.word2;
    }

    -- The leaf and the summaries, with the digits that follow it.
    module _ (u t : ℕ) (u_word : u < 2 ^ 64) (t_word : t < 2 ^ 64)
        (u_same : digit u (key / 64 % 64) ≡ sign v)
        (u_other : (j : ℕ) → (j == key / 64 % 64) ≡ false → digit u j ≡ digit mid j)
        (t_same : digit t (key / 64 / 64) ≡ sign u)
        (t_other : (j : ℕ) → (j == key / 64 / 64) ≡ false → digit t j ≡ digit b.layer2 j) where
      abbrev pub with_all : HierBitmap
      with_all = record with_leaf { layer1 = set_word b.layer1 (key / 64 / 64) u; layer2 = t }

      pub Rewritten-all : Rewritten b with_all (key / 64) v
      Rewritten-all =
          let at_mid = word_at-set_word b.layer1 (key / 64 / 64) u mid_in in
          record {
            cap_eq = refl;
            length0_eq = length-set_word b.layer0 (key / 64) v;
            length1_eq = length-set_word b.layer1 (key / 64 / 64) u;
            leaf_same = word_at-set_word b.layer0 (key / 64) v leaf_in;
            leaf_other = λ j other. word_at-set_word_other b.layer0 (key / 64) v j other;
            mid_same = rw at_mid u_same;
            mid_digits = λ j other. rw at_mid (u_other j other);
            mid_other = λ j other. word_at-set_word_other b.layer1 (key / 64 / 64) u j other;
            mid_word = rw at_mid u_word;
            top_same = rw at_mid t_same;
            top_other = t_other;
            top_word = t_word;
          }

  -- A leaf word that differs in the digit of the key.
  module _ (c : HierBitmap) (v digit_after : ℕ) (r : Rewritten b c (key / 64) v)
      (v_word : v < 2 ^ 64) (v_same : digit v (key % 64) ≡ digit_after)
      (v_other : (j : ℕ) → (j == key % 64) ≡ false → digit v j ≡ digit leaf j) where
    pub after-IsWell : IsWell c
    after-IsWell = rewritten-IsWell b c (key / 64) v r h v_word (λ j l d.
        elim (Bool-cases (j == key % 64)) [
          | inl same ↦ let e = (==_iff j (key % 64)).0 same in omega arith
          | inr other ↦ h.in_cap (key / 64) j l (sym (v_other j other) ∙ d)
        ])

    present_after : (m : ℕ) → present c m ≡ (if m == key then digit_after else present b m)
    present_after m = elim (Bool-cases (m / 64 == key / 64)) [
      | inr far ↦
          let apart : (m == key) ≡ false = ground arith in
          present_there b c (key / 64) v r m far ∙ sym (if_false _ _ _ apart)
      | inl near ↦
          let e = (==_iff (m / 64) (key / 64)).0 near in
          elim (Bool-cases (m % 64 == key % 64)) [
            | inl same ↦
                let e' = (==_iff (m % 64) (key % 64)).0 same in
                let at : (m == key) ≡ true = (==_iff m key).1 (omega arith) in
                present_here b c (key / 64) v r m e
                ∙ ap (λ n. digit v n) e'
                ∙ v_same
                ∙ sym (if_true _ _ _ at)
            | inr other ↦
                let apart : (m == key) ≡ false = ground arith in
                present_here b c (key / 64) v r m e
                ∙ v_other (m % 64) other
                ∙ ap (λ n. digit (word_at b.layer0 n) (m % 64)) (sym e)
                ∙ sym (if_false _ _ _ apart)
          ]
    ]

    pub contains_after :
        (m : ℕ) → contains c m ≡ (if m == key then not (digit_after == 0) else contains b m)
    contains_after m = elim (Bool-cases (m == key)) [
      | inl same ↦
          contains_lem c m after-IsWell
          ∙ ap (λ n. not (n == 0)) (present_after m ∙ if_true _ _ _ same)
          ∙ sym (if_true _ _ _ same)
      | inr other ↦
          contains_lem c m after-IsWell
          ∙ ap (λ n. not (n == 0)) (present_after m ∙ if_false _ _ _ other)
          ∙ sym (contains_lem b m h)
          ∙ sym (if_false _ _ _ other)
    ]
