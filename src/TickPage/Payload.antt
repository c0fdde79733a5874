-- ===== src/TickPage/Payload.antt =====
-- About `get` of a page after a write: only the slot of the key is changed.
use Prim.Native.Nat.{bit_and, bit_or}
use rm_uniswap.Prelude.{
  ℕ, suc, ◌-◌, ◌^◌, ◌<◌, ◌≡◌, refl, sym, ◌∙◌, arith, not, ◌==◌, if◌then◌else◌, Bool-cases, ==_iff,
  inl, inr, mod_unique, some, none,
}
use rm_uniswap.Bitmap.Keys.{marked}
use rm_uniswap.TickInfo.{TickInfo}
use rm_uniswap.TickKey.{slot_index}
use rm_uniswap.TickPage.{TickSlabValue, get, insert, remove_tick, is_initialized}
use rm_uniswap.TickPage.Slots.{slot_index_lem}
use rm_uniswap.Word.{shl}
use rm_uniswap.Word.Digits.{
  digit, digit_le, digit-bit_and, digit-pow_same, digit-pow_other, digit-complement, bit_and_le,
  bit_or_lt, bit_or-pow_same, bit_or-pow_other,
}
use rm_uniswap.Word.Pow.{two_pow_le, two_pow_suc, two_pow_pos}

pow_word : (k : ℕ) → k < 32 → 2 ^ k < 2 ^ 32
pow_word k h = omega (arith, two_pow_le (suc k) 32 (omega arith), two_pow_suc k, two_pow_pos k)

pub slot_bit : (k : ℕ) → k < 32 → shl 32 1 k ≡ 2 ^ k
slot_bit k h = mod_unique (2 ^ 32) 0 (omega arith) (pow_word k h)

slot_small : (key : ℕ) → slot_index key < 32
slot_small key = omega (arith, slot_index_lem key)

-- A tick is there where its digit is.
pub get_lem :
    (page : TickSlabValue) (key : ℕ)
    → page.initialized_map < 2 ^ 32
    → get page key ≡ (
        if not (digit page.initialized_map (slot_index key) == 0)
        then some (page.slots (slot_index key))
        else none)
unfolding get is_initialized
get_lem page key h =
    rw
      (
        slot_bit (slot_index key) (slot_small key),
        marked page.initialized_map (slot_index key) (omega arith),
      )
      refl

module _ (page : TickSlabValue) (key : ℕ) (h : page.initialized_map < 2 ^ 32) where
  get-insert :
      (info : TickInfo) (j : ℕ)
      → get (insert page key info) j
        ≡ (if slot_index j == slot_index key then some info else get page j)
  unfolding insert
  get-insert info j =
      let k = slot_index key in
      let bit = slot_bit k (slot_small key) in
      let word : bit_or page.initialized_map (shl 32 1 k) < 2 ^ 32 =
        bit_or_lt 32 page.initialized_map (shl 32 1 k) h (omega arith) in
      get_lem (insert page key info) j word ∙ (elim (Bool-cases (slot_index j == k)) [
        | inl same ↦
            let e = (==_iff (slot_index j) k).0 same in
            let on : digit (bit_or page.initialized_map (2 ^ k)) k ≡ 1 =
              bit_or-pow_same page.initialized_map k in
            rw (same, bit, e, on) refl
        | inr other ↦
            rw (other, bit, bit_or-pow_other page.initialized_map k (slot_index j) other)
              (sym (get_lem page j h))
      ])

  get-remove_tick :
      (j : ℕ)
      → get (remove_tick page key) j ≡ (if slot_index j == slot_index key then none else get page j)
  unfolding remove_tick
  get-remove_tick j =
      let k = slot_index key in
      let m = page.initialized_map in
      let bit = slot_bit k (slot_small key) in
      let word : bit_and m (2 ^ 32 - 1 - shl 32 1 k) < 2 ^ 32 =
        omega (arith, bit_and_le m (2 ^ 32 - 1 - shl 32 1 k)) in
      let digits = digit-bit_and m (2 ^ 32 - 1 - 2 ^ k) (slot_index j) in
      let flipped =
        digit-complement 32 (2 ^ k) (slot_index j) (pow_word k (slot_small key)) (slot_small j) in
      get_lem (remove_tick page key) j word ∙ (elim (Bool-cases (slot_index j == k)) [
        | inl same ↦
            let e = (==_iff (slot_index j) k).0 same in
            let power : digit (2 ^ k) (slot_index j) ≡ 1 = rw e (digit-pow_same k) in
            let off : digit (bit_and m (2 ^ 32 - 1 - 2 ^ k)) (slot_index j) ≡ 0 = omega arith in
            rw (same, bit, off) refl
        | inr other ↦
            let kept : digit (bit_and m (2 ^ 32 - 1 - 2 ^ k)) (slot_index j)
                ≡ digit m (slot_index j) =
              omega (arith, digit-pow_other k (slot_index j) other, digit_le m (slot_index j)) in
            rw (other, bit, kept) (sym (get_lem page j h))
      ])

  -- For a page whose map is a 32-bit word: after `insert`, `get` returns the new tick for every key
  -- of the same slot; after `remove` it returns none for these; for every other key it returns what
  -- it did before.
  pub get-writes :
      (info : TickInfo) (j : ℕ)
      → (get (insert page key info) j
          ≡ (if slot_index j == slot_index key then some info else get page j))
        × (get (remove_tick page key) j
            ≡ (if slot_index j == slot_index key then none else get page j))
  get-writes info j = (get-insert info j, get-remove_tick j)
