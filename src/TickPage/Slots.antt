-- ===== src/TickPage/Slots.antt =====
-- About the searches in a page: each finds the nearest initialized slot, and only such a slot.
use Prim.Native.Nat.{bit_and}
use rm_uniswap.Prelude.{
  ℕ, suc, ◌+◌, ◌-◌, ◌*◌, ◌%◌, ◌^◌, ◌≤◌, ◌<◌, ◌≡◌, refl, arith, ◌==◌, if◌then◌else◌, Bool-cases,
  ==_iff, inl, inr, lt_or_ge, pos_nonzero, mod_unique, Option, some, none,
}
use rm_uniswap.TickInfo.{TickInfo}
use rm_uniswap.TickKey.{slot_index}
use rm_uniswap.TickPage.{TickSlabValue, next_slot, prev_slot, first_slot, last_slot}
use rm_uniswap.Word.{shl, trailing_zeros, leading_zeros}
use rm_uniswap.Word.Count.{leading_zeros_lem}
use rm_uniswap.Word.Digits.{
  digit, digit_le, digit-zero, digit-bit_and, digit-complement, digit-mask_below, digit-above,
  trailing_zeros_least, bit_len_greatest, bit_and_le,
}
use rm_uniswap.Word.Fields.{bit_and_mask}
use rm_uniswap.Word.Pow.{two_pow_pos, two_pow_le, two_pow_suc}

-- The result of a search among the slots from `lo` on and below `hi`: the first one, or the last one.
abbrev pub IsFirst : TickSlabValue → ℕ → Option (ℕ × TickInfo) → Type 0
IsFirst page lo none = (i : ℕ) → lo ≤ i → i < 32 → digit page.initialized_map i ≡ 0
IsFirst page lo (some (t, info)) =
    (lo ≤ t)
    × (t < 32)
    × (digit page.initialized_map t ≡ 1)
    × (info ≡ page.slots t)
    × ((i : ℕ) → lo ≤ i → i < t → digit page.initialized_map i ≡ 0)

abbrev pub IsLast : TickSlabValue → ℕ → Option (ℕ × TickInfo) → Type 0
IsLast page hi none = (i : ℕ) → i < hi → digit page.initialized_map i ≡ 0
IsLast page hi (some (t, info)) =
    (t < hi)
    × (digit page.initialized_map t ≡ 1)
    × (info ≡ page.slots t)
    × ((i : ℕ) → t < i → i < hi → digit page.initialized_map i ≡ 0)

-- What the four searches of a page find for a key.
pub record AreNearest (page : TickSlabValue) (key : ℕ) : Type 0 where
  pub after : IsFirst page (slot_index key + 1) (next_slot page key)
  pub before : IsLast page (slot_index key) (prev_slot page key)
  pub first : IsFirst page 0 (first_slot page)
  pub last : IsLast page 32 (last_slot page)

pub slot_index_lem : (key : ℕ) → slot_index key ≡ key % 32
unfolding slot_index
slot_index_lem key = bit_and_mask 5 key

ones_above : (k : ℕ) → k < 32 → shl 32 (2 ^ 32 - 1) k ≡ 2 ^ 32 - 1 - (2 ^ k - 1)
ones_above k h =
    let p : 2 * 2 ^ k ≤ 2 ^ 32 =
      omega (arith, two_pow_le (suc k) 32 (omega arith), two_pow_suc k) in
    let q = two_pow_pos k in mod_unique (2 ^ 32) (2 ^ k - 1) (omega arith) (omega arith)

module _ (page : TickSlabValue) (fits : page.initialized_map < 2 ^ 32) where
  open page use {initialized_map}

  -- The lowest digit under a mask of the digits from `lo` on.
  IsFirst-under :
      (mask lo : ℕ)
      → ((i : ℕ) → i < lo → digit mask i ≡ 0)
      → ((i : ℕ) → lo ≤ i → i < 32 → digit mask i ≡ 1)
      → IsFirst page lo (
          if bit_and initialized_map mask == 0
          then none
          else some (
            trailing_zeros 32 (bit_and initialized_map mask),
            page.slots (trailing_zeros 32 (bit_and initialized_map mask)),
          ))
  IsFirst-under mask lo under over = elim (lt_or_ge 0 (bit_and initialized_map mask)) [
    | inl p ↦
        let t = trailing_zeros 32 (bit_and initialized_map mask) in
        let (small, found, least) =
          trailing_zeros_least 32 (bit_and initialized_map mask) p
            (omega (arith, bit_and_le initialized_map mask)) in
        let at = digit-bit_and initialized_map mask t in
        rw (pos_nonzero (bit_and initialized_map mask) p) (
          elim (lt_or_ge t lo) [ inl l ↦ absurd (omega (arith, under t l)) | inr g ↦ g ],
          small,
          omega (arith, digit_le initialized_map t, digit_le mask t),
          refl,
          λ i l m. omega (
            arith,
            least i m,
            digit-bit_and initialized_map mask i,
            over i l (omega arith),
            digit_le initialized_map i,
          ),
        )
    | inr e ↦
        let z : bit_and initialized_map mask ≡ 0 = omega arith in
        rw z (λ i l m.
          let d : digit (bit_and initialized_map mask) i ≡ 0 = rw z (digit-zero i) in
          omega
            (arith, digit-bit_and initialized_map mask i, over i l m, digit_le initialized_map i))
  ]

  -- The highest digit under a mask of the digits below `hi`.
  IsLast-under :
      (mask hi : ℕ)
      → ((i : ℕ) → i < hi → digit mask i ≡ 1)
      → ((i : ℕ) → hi ≤ i → digit mask i ≡ 0)
      → IsLast page hi (
          if bit_and initialized_map mask == 0
          then none
          else some (
            31 - leading_zeros 32 (bit_and initialized_map mask),
            page.slots (31 - leading_zeros 32 (bit_and initialized_map mask)),
          ))
  IsLast-under mask hi under over = elim (lt_or_ge 0 (bit_and initialized_map mask)) [
    | inl p ↦
        let (t, len, small, found, above) =
          bit_len_greatest 32 (bit_and initialized_map mask) p
            (omega (arith, bit_and_le initialized_map mask)) in
        let same : 31 - leading_zeros 32 (bit_and initialized_map mask) ≡ t =
          omega (arith, leading_zeros_lem 32 (bit_and initialized_map mask)) in
        let at = digit-bit_and initialized_map mask t in
        rw (pos_nonzero (bit_and initialized_map mask) p, same)
          (
            elim (lt_or_ge t hi) [ inl l ↦ l | inr g ↦ absurd (omega (arith, over t g)) ],
            omega (arith, digit_le initialized_map t, digit_le mask t),
            refl,
            λ i l m. omega (
              arith,
              above i l,
              digit-bit_and initialized_map mask i,
              under i m,
              digit_le initialized_map i,
            ),
          )
    | inr e ↦
        let z : bit_and initialized_map mask ≡ 0 = omega arith in
        rw z (λ i l.
          let d : digit (bit_and initialized_map mask) i ≡ 0 = rw z (digit-zero i) in
          omega
            (arith, digit-bit_and initialized_map mask i, under i l, digit_le initialized_map i))
  ]

  after_lem : (key : ℕ) → IsFirst page (slot_index key + 1) (next_slot page key)
  unfolding next_slot
  after_lem key =
      let s = slot_index key in
      let range : s < 32 = omega (arith, slot_index_lem key) in
      elim (Bool-cases (s == 31)) [
        | inl end ↦ rw end (λ i l m. absurd (omega (arith, (==_iff s 31).0 end)))
        | inr more ↦
            let small : s + 1 < 32 = ground arith in
            let q = two_pow_pos (s + 1) in
            let p : 2 ^ (s + 1) ≤ 2 ^ 32 = two_pow_le (s + 1) 32 (omega arith) in
            rw more (
              IsFirst-under (shl 32 (2 ^ 32 - 1) (s + 1)) (s + 1)
                (λ i l. rw (ones_above (s + 1) small) (
                  omega (
                    arith,
                    digit-complement 32 (2 ^ (s + 1) - 1) i (omega arith) (omega arith),
                    digit-mask_below (s + 1) i l,
                  )))
                (λ i l m. rw (ones_above (s + 1) small) (
                  omega (
                    arith,
                    digit-complement 32 (2 ^ (s + 1) - 1) i (omega arith) m,
                    digit-above (s + 1) (2 ^ (s + 1) - 1) i (omega arith) l,
                  ))))
      ]

  before_lem : (key : ℕ) → IsLast page (slot_index key) (prev_slot page key)
  unfolding prev_slot
  before_lem key =
      let s = slot_index key in
      let range : s < 32 = omega (arith, slot_index_lem key) in
      elim (Bool-cases (s == 0)) [
        | inl start ↦ rw start (λ i l. absurd (omega (arith, (==_iff s 0).0 start)))
        | inr more ↦
            let q = two_pow_pos s in
            let p : 2 * 2 ^ s ≤ 2 ^ 32 =
              omega (arith, two_pow_le (suc s) 32 (omega arith), two_pow_suc s) in
            let one : shl 32 1 s ≡ 2 ^ s = mod_unique (2 ^ 32) 0 (omega arith) (omega arith) in
            rw more (
              IsLast-under (shl 32 1 s - 1) s (λ i l. rw one (digit-mask_below s i l))
                (λ i l. rw one (digit-above s (2 ^ s - 1) i (omega arith) l)))
      ]

  first_lem : IsFirst page 0 (first_slot page)
  unfolding first_slot
  first_lem = elim (lt_or_ge 0 initialized_map) [
    | inl p ↦
        let (small, found, least) = trailing_zeros_least 32 initialized_map p fits in
        rw (pos_nonzero initialized_map p) (omega arith, small, found, refl, λ i l m. least i m)
    | inr e ↦ let z : initialized_map ≡ 0 = omega arith in rw z (λ i l m. digit-zero i)
  ]

  last_lem : IsLast page 32 (last_slot page)
  unfolding last_slot
  last_lem = elim (lt_or_ge 0 initialized_map) [
    | inl p ↦
        let (t, len, small, found, above) = bit_len_greatest 32 initialized_map p fits in
        let same : 31 - leading_zeros 32 initialized_map ≡ t =
          omega (arith, leading_zeros_lem 32 initialized_map) in
        rw (pos_nonzero initialized_map p, same) (small, found, refl, λ i l m. above i l)
    | inr e ↦ let z : initialized_map ≡ 0 = omega arith in rw z (λ i l. digit-zero i)
  ]

  -- For a page whose map is a 32-bit word and any key: `next_slot` returns the first initialized
  -- slot above that of the key, `prev_slot` the last one below it, `first_slot` and `last_slot` the
  -- first and the last of all, each with the tick of the slot, and none only where no slot there is
  -- initialized.
  pub slots-AreNearest : (key : ℕ) → AreNearest page key
  slots-AreNearest key = record {
    after = after_lem key;
    before = before_lem key;
    first = first_lem;
    last = last_lem;
  }
