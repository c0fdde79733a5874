-- ===== src/Bitmap/Search.antt =====
-- About the searches of the bitmap: each finds the nearest key that is present, and only such a key.
use Prim.Native.Nat.{bit_and, bit_or}
use rm_uniswap.Prelude.{
  ℕ, zero, suc, ◌+◌, ◌*◌, ◌/◌, ◌%◌, ◌≤◌, ◌<◌, ◌≡◌, refl, arith, ◌==◌, if◌then◌else◌, inl, inr, some,
  none, Option, not, lt→leb, le→leb, lt_or_ge, pos_nonzero,
}
use rm_uniswap.Bitmap.{HierBitmap, word_at, make_key, next_from, bits_from, bits_after}
use rm_uniswap.Bitmap.Masks.{
  IsUpper, Least-over, none_over, Least-of, bits_from-IsUpper, bits_after-IsUpper,
}
use rm_uniswap.Bitmap.Well.{
  IsWell, present, empty_digit, empty_summary, below1, below2, joined, make_key_lem,
}
use rm_uniswap.Word.{trailing_zeros, shl}
use rm_uniswap.Word.Digits.{digit, digit_le}
use rm_uniswap.Word.Fields.{bit_and_mask}

-- The cases of a search: in the leaf, in the summary, in the top word, or nowhere.
pub chosen :
    (P : Option ℕ → Type 0) (c0 c1 c2 : ℕ) (k0 k1 k2 : Option ℕ)
    → (0 < c0 → P k0)
    → (c0 ≡ 0 → 0 < c1 → P k1)
    → (c0 ≡ 0 → c1 ≡ 0 → c2 ≡ 0 → P none)
    → (c0 ≡ 0 → c1 ≡ 0 → 0 < c2 → P k2)
    → P (if not (c0 == 0) then k0 else if not (c1 == 0) then k1 else if c2 == 0 then none else k2)
chosen P (suc c0) c1 c2 k0 k1 k2 leaf summary nowhere top =
    rw (pos_nonzero (suc c0) (omega arith)) (leaf (omega arith))
chosen P zero (suc c1) c2 k0 k1 k2 leaf summary nowhere top =
    rw (pos_nonzero (suc c1) (omega arith)) (summary refl (omega arith))
chosen P zero zero zero k0 k1 k2 leaf summary nowhere top = nowhere refl refl refl
chosen P zero zero (suc c2) k0 k1 k2 leaf summary nowhere top =
    rw (pos_nonzero (suc c2) (omega arith)) (top refl refl (omega arith))

-- The result of a search upwards from `start`, and downwards.
abbrev pub IsNext : HierBitmap → ℕ → Option ℕ → Type 0
IsNext b start none = (m : ℕ) → start ≤ m → present b m ≡ 0
IsNext b start (some k) =
    (start ≤ k) × (present b k ≡ 1) × ((m : ℕ) → start ≤ m → m < k → present b m ≡ 0)

module _ (b : HierBitmap) (h : IsWell b) where
  pub present_at :
      (i j : ℕ) → j < 64 → digit (word_at b.layer0 i) j ≡ 1 → present b (i * 64 + j) ≡ 1
  present_at i j l d =
      let q : (i * 64 + j) / 64 ≡ i = omega arith in
      let r : (i * 64 + j) % 64 ≡ j = omega arith in rw (q, r) d

  -- The first key of a leaf word that is not empty, where no word between has a key.
  first_of :
      (start i : ℕ)
      → start < i * 64
      → 0 < word_at b.layer0 i
      → ((m : ℕ) → start ≤ m → m / 64 < i → present b m ≡ 0)
      → IsNext b start (make_key b i (trailing_zeros 64 (word_at b.layer0 i)))
  first_of start i far p gap =
      let w = word_at b.layer0 i in
      let t = trailing_zeros 64 w in
      let l = Least-of w p (h.word0 i) in
      rw (make_key_lem b h i t l.fits l.found) (
        omega arith,
        present_at i t l.fits l.found,
        λ m lo hi. elim (lt_or_ge (m / 64) i) [
          | inl before ↦ gap m lo before
          | inr at ↦
              let q : m / 64 ≡ i = omega (arith, l.fits) in
              rw q (l.least (m % 64) (omega arith) (omega arith))
        ],
      )

  -- No key is present from `cap` on.
  pub none_beyond : (m : ℕ) → b.cap ≤ m → present b m ≡ 0
  none_beyond m l = elim (lt_or_ge (present b m) 1) [
    | inl absent ↦ omega arith
    | inr there ↦
        let one : present b m ≡ 1 = omega (arith, digit_le (word_at b.layer0 (m / 64)) (m % 64)) in
        absurd (omega (arith, h.in_cap (m / 64) (m % 64) (omega arith) one))
  ]

  module _ (start : ℕ) (in_cap : start < b.cap) where
    abbrev word0 : ℕ
    word0 = word_at b.layer0 (start / 64)

    abbrev word1 : ℕ
    word1 = word_at b.layer1 (start / 64 / 64)

    -- Upwards, with a mask for each layer.
    module _ (mask0 mask1 mask2 : ℕ) (up0 : IsUpper mask0 (start % 64))
        (up1 : IsUpper mask1 (start / 64 % 64 + 1))
        (up2 : IsUpper mask2 (start / 64 / 64 + 1)) where
      in_leaf :
          0 < bit_and word0 mask0
          → IsNext b start (make_key b (start / 64) (trailing_zeros 64 (bit_and word0 mask0)))
      in_leaf p =
          let t = trailing_zeros 64 (bit_and word0 mask0) in
          let l = Least-over word0 mask0 (h.word0 (start / 64)) (start % 64) up0 p in
          rw (make_key_lem b h (start / 64) t l.fits l.found) (
            omega (arith, l.from),
            present_at (start / 64) t l.fits l.found,
            λ m lo hi.
                let q : m / 64 ≡ start / 64 = omega (arith, l.fits) in
                rw q (l.least (m % 64) (omega arith) (omega arith)),
          )

      past_leaf :
          bit_and word0 mask0 ≡ 0 → (m : ℕ) → start ≤ m → m / 64 ≤ start / 64 → present b m ≡ 0
      past_leaf e m lo hi =
          let q : m / 64 ≡ start / 64 = omega arith in
          rw q (
            none_over word0 mask0 (h.word0 (start / 64)) (start % 64) (m % 64) up0 e (omega arith)
              (omega arith))

      in_summary :
          bit_and word0 mask0 ≡ 0
          → 0 < bit_and word1 mask1
          → IsNext b start (
              make_key b (start / 64 / 64 * 64 + trailing_zeros 64 (bit_and word1 mask1)) (
                trailing_zeros 64 (
                  word_at b.layer0
                    (start / 64 / 64 * 64 + trailing_zeros 64 (bit_and word1 mask1)))))
      in_summary e p =
          let t = trailing_zeros 64 (bit_and word1 mask1) in
          let l = Least-over word1 mask1 (h.word1 (start / 64 / 64)) (start / 64 % 64 + 1) up1 p in
          first_of start (start / 64 / 64 * 64 + t) (omega (arith, l.from))
            (below1 b h (start / 64 / 64) t l.fits l.found)
            (λ m lo hi. elim (lt_or_ge (start / 64) (m / 64)) [
              | inr near ↦ past_leaf e m lo near
              | inl far ↦
                  let q : m / 64 / 64 ≡ start / 64 / 64 = omega (arith, l.fits) in
                  empty_digit b h m (start / 64 / 64) q
                    (l.least (m / 64 % 64) (omega arith) (omega arith))
            ])

      past_summary :
          bit_and word0 mask0 ≡ 0
          → bit_and word1 mask1 ≡ 0
          → (m : ℕ) → start ≤ m
          → m / 64 / 64 ≤ start / 64 / 64
          → present b m ≡ 0
      past_summary e0 e1 m lo hi = elim (lt_or_ge (start / 64) (m / 64)) [
        | inr near ↦ past_leaf e0 m lo near
        | inl far ↦
            let q : m / 64 / 64 ≡ start / 64 / 64 = omega arith in
            empty_digit b h m (start / 64 / 64) q (
              none_over word1 mask1 (h.word1 (start / 64 / 64)) (start / 64 % 64 + 1) (m / 64 % 64)
                up1 e1 (omega arith) (omega arith))
      ]

      in_top :
          bit_and word0 mask0 ≡ 0
          → bit_and word1 mask1 ≡ 0
          → 0 < bit_and b.layer2 mask2
          → IsNext b start (
              make_key b
                (trailing_zeros 64 (bit_and b.layer2 mask2) * 64
                  + trailing_zeros 64
                      (word_at b.layer1 (trailing_zeros 64 (bit_and b.layer2 mask2))))
                (trailing_zeros 64 (
                  word_at b.layer0 (
                    trailing_zeros 64 (bit_and b.layer2 mask2) * 64
                    + trailing_zeros 64
                        (word_at b.layer1 (trailing_zeros 64 (bit_and b.layer2 mask2)))))))
      in_top e0 e1 p =
          let i = trailing_zeros 64 (bit_and b.layer2 mask2) in
          let l = Least-over b.layer2 mask2 h.word2 (start / 64 / 64 + 1) up2 p in
          let t = trailing_zeros 64 (word_at b.layer1 i) in
          let k = Least-of (word_at b.layer1 i) (below2 b h i l.found) (h.word1 i) in
          first_of start (i * 64 + t) (omega (arith, l.from)) (below1 b h i t k.fits k.found)
            (λ m lo hi. elim (lt_or_ge (start / 64 / 64) (m / 64 / 64)) [
              | inr near ↦ past_summary e0 e1 m lo near
              | inl far ↦ elim (lt_or_ge (m / 64 / 64) i) [
                | inl before ↦ empty_summary b h m (l.least (m / 64 / 64) (omega arith) before)
                | inr at ↦
                    let q : m / 64 / 64 ≡ i = omega (arith, k.fits) in
                    empty_digit b h m i q (k.least (m / 64 % 64) (omega arith) (omega arith))
              ]
            ])

      past_top :
          bit_and word0 mask0 ≡ 0
          → bit_and word1 mask1 ≡ 0
          → bit_and b.layer2 mask2 ≡ 0
          → IsNext b start none
      past_top e0 e1 e2 m lo = elim (lt_or_ge (start / 64 / 64) (m / 64 / 64)) [
        | inr near ↦ past_summary e0 e1 m lo near
        | inl far ↦ elim (lt_or_ge m b.cap) [
          | inr out ↦ none_beyond m out
          | inl within ↦ empty_summary b h m (
              none_over b.layer2 mask2 h.word2 (start / 64 / 64 + 1) (m / 64 / 64) up2 e2
                (omega arith) (omega (arith, h.cap_fits)))
        ]
      ]

  IsNext-within : (start : ℕ) → start < b.cap → IsNext b start (next_from b start)
  unfolding next_from
  IsNext-within start within =
      let c = h.cap_fits in
      let i1 = start / 64 / 64 in
      let mask0 = bits_from (start % 64) in
      let mask1 = bits_after (start / 64 % 64) in
      let mask2 = bits_after i1 in
      let up0 = bits_from-IsUpper (start % 64) (omega arith) in
      let up1 = bits_after-IsUpper (start / 64 % 64) (omega arith) in
      let up2 = bits_after-IsUpper i1 (omega arith) in
      let t1 = trailing_zeros 64 (bit_and (word1 start within) mask1) in
      let t2 = trailing_zeros 64 (bit_and b.layer2 mask2) in
      let u2 = trailing_zeros 64 (word_at b.layer1 t2) in
      rw (lt→leb b.cap start within, bit_and_mask 6 start, bit_and_mask 6 (start / 64))
        (chosen (IsNext b start) (bit_and (word0 start within) mask0)
          (bit_and (word1 start within) mask1) (bit_and b.layer2 mask2)
          (make_key b (start / 64) (trailing_zeros 64 (bit_and (word0 start within) mask0)))
          (make_key b (bit_or (shl 64 i1 6) t1)
            (trailing_zeros 64 (word_at b.layer0 (bit_or (shl 64 i1 6) t1))))
          (make_key b (bit_or (shl 64 t2 6) u2)
            (trailing_zeros 64 (word_at b.layer0 (bit_or (shl 64 t2 6) u2))))
          (in_leaf start within mask0 mask1 mask2 up0 up1 up2)
          (λ e p.
            let l =
              Least-over (word1 start within) mask1 (h.word1 i1) (start / 64 % 64 + 1) up1 p in
            rw (joined b h i1 t1 (omega arith) l.fits)
              (in_summary start within mask0 mask1 mask2 up0 up1 up2 e p))
          (past_top start within mask0 mask1 mask2 up0 up1 up2)
          (λ e0 e1 p.
            let l = Least-over b.layer2 mask2 h.word2 (i1 + 1) up2 p in
            let k = Least-of (word_at b.layer1 t2) (below2 b h t2 l.found) (h.word1 t2) in
            rw (joined b h t2 u2 (omega (arith, l.fits)) k.fits)
              (in_top start within mask0 mask1 mask2 up0 up1 up2 e0 e1 p)))

  -- Upwards from a key, itself included.
  pub next_from-IsNext : (start : ℕ) → IsNext b start (next_from b start)
  unfolding next_from
  next_from-IsNext start = elim (lt_or_ge start b.cap) [
    | inl within ↦ IsNext-within start within
    | inr out ↦ rw (le→leb b.cap start out) (λ m l. none_beyond m (omega arith))
  ]
