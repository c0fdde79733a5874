-- ===== src/Bitmap/SearchDown.antt =====
-- About the searches of the bitmap downwards, which mirror those upwards.
use Prim.Native.Nat.{bit_and, bit_or}
use rm_uniswap.Prelude.{
  ℕ, zero, suc, ◌+◌, ◌-◌, ◌*◌, ◌/◌, ◌%◌, ◌≤◌, ◌<◌, ◌≡◌, arith, ◌==◌, Bool-cases, ==_iff, inl, inr,
  some, none, Option, min, false, lt→leb, lt_or_ge, pos_nonzero,
}
use rm_uniswap.Bitmap.{
  HierBitmap, next, next_or_eq, prev, prev_or_eq, word_at, make_key, prev_from, bits_through,
  bits_before, highest_set_bit,
}
use rm_uniswap.Bitmap.Masks.{
  IsLower, Greatest-under, none_under, Greatest-of, bits_through-IsLower, bits_before-IsLower,
}
use rm_uniswap.Bitmap.Well.{
  IsWell, present, empty_digit, empty_summary, below1, below2, joined, make_key_lem,
}
use rm_uniswap.Word.{shl}
use rm_uniswap.Word.Fields.{bit_and_mask}
use rm_uniswap.Bitmap.Search.{IsNext, next_from-IsNext, chosen, present_at, none_beyond}

-- The result of a search downwards from `start`.
abbrev pub IsPrev : HierBitmap → ℕ → Option ℕ → Type 0
IsPrev b start none = (m : ℕ) → m ≤ start → present b m ≡ 0
IsPrev b start (some k) =
    (k ≤ start) × (present b k ≡ 1) × ((m : ℕ) → k < m → m ≤ start → present b m ≡ 0)

-- The same, without the key itself.
abbrev pub IsBelow : HierBitmap → ℕ → Option ℕ → Type 0
IsBelow b key none = (m : ℕ) → m < key → present b m ≡ 0
IsBelow b key (some k) =
    (k < key) × (present b k ≡ 1) × ((m : ℕ) → k < m → m < key → present b m ≡ 0)

IsBelow-of : (b : HierBitmap) (k : ℕ) (r : Option ℕ) → IsPrev b k r → IsBelow b (suc k) r
IsBelow-of b k none e = λ m l. e m (omega arith)
IsBelow-of b k (some j) (le, there, gap) = (omega arith, there, λ m lo hi. gap m lo (omega arith))

-- What the four searches from a key find.
pub record AreNearest (b : HierBitmap) (key : ℕ) : Type 0 where
  pub after : IsNext b (key + 1) (next b key)
  pub at_or_after : IsNext b key (next_or_eq b key)
  pub at_or_before : IsPrev b key (prev_or_eq b key)
  pub before : IsBelow b key (prev b key)

module _ (b : HierBitmap) (h : IsWell b) where
  -- The last key of a leaf word that is not empty, where no word between has a key.
  last_of :
      (start i : ℕ)
      → i * 64 + 64 ≤ start
      → 0 < word_at b.layer0 i
      → ((m : ℕ) → m ≤ start → i < m / 64 → present b m ≡ 0)
      → IsPrev b start (make_key b i (highest_set_bit (word_at b.layer0 i)))
  last_of start i far p gap =
      let w = word_at b.layer0 i in
      let t = highest_set_bit w in
      let l = Greatest-of w p (h.word0 i) in
      rw (make_key_lem b h i t l.below l.found) (
        omega (arith, l.below),
        present_at b h i t l.below l.found,
        λ m lo hi. elim (lt_or_ge i (m / 64)) [
          | inl after ↦ gap m hi after
          | inr at ↦
              let q : m / 64 ≡ i = omega arith in
              rw q (l.greatest (m % 64) (omega arith) (omega arith))
        ],
      )

  module _ (start : ℕ) (in_cap : start < b.cap) where
    abbrev word0 : ℕ
    word0 = word_at b.layer0 (start / 64)

    abbrev word1 : ℕ
    word1 = word_at b.layer1 (start / 64 / 64)

    -- With a mask for each layer.
    module _ (mask0 mask1 mask2 : ℕ) (low0 : IsLower mask0 (suc (start % 64)))
        (low1 : IsLower mask1 (start / 64 % 64)) (low2 : IsLower mask2 (start / 64 / 64)) where
      in_leaf :
          0 < bit_and word0 mask0
          → IsPrev b start (make_key b (start / 64) (highest_set_bit (bit_and word0 mask0)))
      in_leaf p =
          let t = highest_set_bit (bit_and word0 mask0) in
          let l = Greatest-under word0 mask0 (h.word0 (start / 64)) (suc (start % 64)) low0 p in
          let fits : t < 64 = omega (arith, l.below) in
          rw (make_key_lem b h (start / 64) t fits l.found) (
            omega (arith, l.below),
            present_at b h (start / 64) t fits l.found,
            λ m lo hi.
                let q : m / 64 ≡ start / 64 = omega arith in
                rw q (l.greatest (m % 64) (omega arith) (omega arith)),
          )

      past_leaf :
          bit_and word0 mask0 ≡ 0 → (m : ℕ) → m ≤ start → start / 64 ≤ m / 64 → present b m ≡ 0
      past_leaf e m lo hi =
          let q : m / 64 ≡ start / 64 = omega arith in
          rw q (
            none_under word0 mask0 (h.word0 (start / 64)) (suc (start % 64)) (m % 64) low0 e
              (omega arith))

      in_summary :
          bit_and word0 mask0 ≡ 0
          → 0 < bit_and word1 mask1
          → IsPrev b start (
              make_key b (start / 64 / 64 * 64 + highest_set_bit (bit_and word1 mask1)) (
                highest_set_bit (
                  word_at b.layer0 (start / 64 / 64 * 64 + highest_set_bit (bit_and word1 mask1)))))
      in_summary e p =
          let t = highest_set_bit (bit_and word1 mask1) in
          let l = Greatest-under word1 mask1 (h.word1 (start / 64 / 64)) (start / 64 % 64) low1 p in
          let fits : t < 64 = omega (arith, l.below) in
          last_of start (start / 64 / 64 * 64 + t) (omega (arith, l.below))
            (below1 b h (start / 64 / 64) t fits l.found)
            (λ m lo hi. elim (lt_or_ge (m / 64) (start / 64)) [
              | inr near ↦ past_leaf e m lo near
              | inl far ↦
                  let q : m / 64 / 64 ≡ start / 64 / 64 = omega arith in
                  empty_digit b h m (start / 64 / 64) q
                    (l.greatest (m / 64 % 64) (omega arith) (omega arith))
            ])

      past_summary :
          bit_and word0 mask0 ≡ 0
          → bit_and word1 mask1 ≡ 0
          → (m : ℕ) → m ≤ start
          → start / 64 / 64 ≤ m / 64 / 64
          → present b m ≡ 0
      past_summary e0 e1 m lo hi = elim (lt_or_ge (m / 64) (start / 64)) [
        | inr near ↦ past_leaf e0 m lo near
        | inl far ↦
            let q : m / 64 / 64 ≡ start / 64 / 64 = omega arith in
            empty_digit b h m (start / 64 / 64) q (
              none_under word1 mask1 (h.word1 (start / 64 / 64)) (start / 64 % 64) (m / 64 % 64)
                low1 e1 (omega arith))
      ]

      in_top :
          bit_and word0 mask0 ≡ 0
          → bit_and word1 mask1 ≡ 0
          → 0 < bit_and b.layer2 mask2
          → IsPrev b start (
              make_key b
                (highest_set_bit (bit_and b.layer2 mask2) * 64
                  + highest_set_bit (word_at b.layer1 (highest_set_bit (bit_and b.layer2 mask2))))
                (highest_set_bit (
                  word_at b.layer0 (
                    highest_set_bit (bit_and b.layer2 mask2) * 64
                    + highest_set_bit
                        (word_at b.layer1 (highest_set_bit (bit_and b.layer2 mask2)))))))
      in_top e0 e1 p =
          let i = highest_set_bit (bit_and b.layer2 mask2) in
          let l = Greatest-under b.layer2 mask2 h.word2 (start / 64 / 64) low2 p in
          let t = highest_set_bit (word_at b.layer1 i) in
          let k = Greatest-of (word_at b.layer1 i) (below2 b h i l.found) (h.word1 i) in
          last_of start (i * 64 + t) (omega (arith, l.below, k.below))
            (below1 b h i t k.below k.found)
            (λ m lo hi. elim (lt_or_ge (m / 64 / 64) (start / 64 / 64)) [
              | inr near ↦ past_summary e0 e1 m lo near
              | inl far ↦ elim (lt_or_ge i (m / 64 / 64)) [
                | inl after ↦ empty_summary b h m (l.greatest (m / 64 / 64) after far)
                | inr at ↦
                    let q : m / 64 / 64 ≡ i = omega arith in
                    empty_digit b h m i q (k.greatest (m / 64 % 64) (omega arith) (omega arith))
              ]
            ])

      past_top :
          bit_and word0 mask0 ≡ 0
          → bit_and word1 mask1 ≡ 0
          → bit_and b.layer2 mask2 ≡ 0
          → IsPrev b start none
      past_top e0 e1 e2 m lo = elim (lt_or_ge (m / 64 / 64) (start / 64 / 64)) [
        | inr near ↦ past_summary e0 e1 m lo near
        | inl far ↦
            empty_summary b h m
              (none_under b.layer2 mask2 h.word2 (start / 64 / 64) (m / 64 / 64) low2 e2 far)
      ]

  pub IsPrev-within : (start : ℕ) → start < b.cap → IsPrev b start (prev_from b start)
  unfolding prev_from
  IsPrev-within start within =
      let c = h.cap_fits in
      let i1 = start / 64 / 64 in
      let mask0 = bits_through (start % 64) in
      let mask1 = bits_before (start / 64 % 64) in
      let mask2 = bits_before i1 in
      let low0 = bits_through-IsLower (start % 64) (omega arith) in
      let low1 = bits_before-IsLower (start / 64 % 64) (omega arith) in
      let low2 = bits_before-IsLower i1 (omega arith) in
      let t1 = highest_set_bit (bit_and (word1 start within) mask1) in
      let t2 = highest_set_bit (bit_and b.layer2 mask2) in
      let u2 = highest_set_bit (word_at b.layer1 t2) in
      rw (lt→leb b.cap start within, bit_and_mask 6 start, bit_and_mask 6 (start / 64))
        (chosen (IsPrev b start) (bit_and (word0 start within) mask0)
          (bit_and (word1 start within) mask1) (bit_and b.layer2 mask2)
          (make_key b (start / 64) (highest_set_bit (bit_and (word0 start within) mask0)))
          (make_key b (bit_or (shl 64 i1 6) t1)
            (highest_set_bit (word_at b.layer0 (bit_or (shl 64 i1 6) t1))))
          (make_key b (bit_or (shl 64 t2 6) u2)
            (highest_set_bit (word_at b.layer0 (bit_or (shl 64 t2 6) u2))))
          (in_leaf start within mask0 mask1 mask2 low0 low1 low2)
          (λ e p.
            let l =
              Greatest-under (word1 start within) mask1 (h.word1 i1) (start / 64 % 64) low1 p in
            rw (joined b h i1 t1 (omega arith) (omega (arith, l.below)))
              (in_summary start within mask0 mask1 mask2 low0 low1 low2 e p))
          (past_top start within mask0 mask1 mask2 low0 low1 low2)
          (λ e0 e1 p.
            let l = Greatest-under b.layer2 mask2 h.word2 i1 low2 p in
            let k = Greatest-of (word_at b.layer1 t2) (below2 b h t2 l.found) (h.word1 t2) in
            rw (joined b h t2 u2 (omega (arith, l.below)) k.below)
              (in_top start within mask0 mask1 mask2 low0 low1 low2 e0 e1 p)))

  -- No key lies from `start` to `key`.
  widen :
      (start key : ℕ) (r : Option ℕ)
      → start ≤ key
      → ((m : ℕ) → start < m → m ≤ key → present b m ≡ 0)
      → IsPrev b start r
      → IsPrev b key r
  widen start key none le gap e =
      λ m l. elim (lt_or_ge start m) [ inl above ↦ gap m above l | inr within ↦ e m within ]
  widen start key (some k) le gap (below, there, none_between) = (
    omega arith,
    there,
    λ m lo hi. elim (lt_or_ge start m) [
      | inl above ↦ gap m above hi
      | inr within ↦ none_between m lo within
    ],
  )

  pub IsPrev-clamped :
      (key : ℕ) → (b.cap == 0) ≡ false → IsPrev b key (prev_from b (min key (b.cap - 1)))
  IsPrev-clamped key some_cap =
      let positive : 0 < b.cap = ground arith in
      widen (min key (b.cap - 1)) key (prev_from b (min key (b.cap - 1))) (omega arith)
        (λ m l hi. none_beyond b h m (omega arith))
        (IsPrev-within (min key (b.cap - 1)) (omega arith))

  nothing : b.cap ≡ 0 → (m : ℕ) → present b m ≡ 0
  nothing e m = none_beyond b h m (omega arith)

  before_lem : (key : ℕ) → IsBelow b key (prev b key)
  unfolding prev
  before_lem zero = λ m l. absurd (omega arith)
  before_lem (suc k) = elim (Bool-cases (b.cap == 0)) [
    | inl empty ↦
        rw (pos_nonzero (suc k) (omega arith), empty) (λ m l. nothing ((==_iff b.cap 0).0 empty) m)
    | inr some_cap ↦
        let same : suc k - 1 ≡ k = omega arith in
        rw (pos_nonzero (suc k) (omega arith), some_cap, same)
          (IsBelow-of b k (prev_from b (min k (b.cap - 1))) (IsPrev-clamped k some_cap))
  ]

  at_or_before_lem : (key : ℕ) → IsPrev b key (prev_or_eq b key)
  unfolding prev_or_eq
  at_or_before_lem key = elim (Bool-cases (b.cap == 0)) [
    | inl empty ↦ rw empty (λ m l. nothing ((==_iff b.cap 0).0 empty) m)
    | inr some_cap ↦ rw some_cap (IsPrev-clamped key some_cap)
  ]

  -- For a bitmap that keeps its invariant and any key: `next` and `next_or_eq` return the least
  -- present key above it or from it on, `prev` and `prev_or_eq` the greatest one below it or up to
  -- it, and each returns none only where no key is present on that side.
  pub searches-AreNearest : (key : ℕ) → AreNearest b key
  unfolding next next_or_eq
  searches-AreNearest key = record {
    after = next_from-IsNext b h (key + 1);
    at_or_after = next_from-IsNext b h key;
    at_or_before = at_or_before_lem key;
    before = before_lem key;
  }
