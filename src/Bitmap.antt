-- ===== src/Bitmap.antt =====
-- core/concentrated/ticks/bitmap.rs: `HierBitmap`, a bitmap of keys with two layers of summaries. A
-- `Vec<u64>` is a list of words; the guards on `cap` keep every index in range, so that a word out of
-- range, which is zero here, is not read. A mutating operation returns the bitmap and its Boolean.
pub mod Fresh
pub mod Keys
pub mod Masks
pub mod Search
pub mod SearchDown
pub mod Rewrite
pub mod Update
mod Tests
pub mod Well
use mathlib.Core.List.{List, [], ◌∷◌}
use rm_uniswap.Prelude.{
  ℕ, zero, suc, ◌+◌, ◌-◌, ◌*◌, ◌/◌, ◌^◌, Bool, true, false, not, ltb, leb, ◌==◌, if◌then◌else◌,
  ◌||◌, Option, none, some, div_ceil, min,
}
use Prim.Native.Nat.{bit_and, bit_or}
use rm_uniswap.Word.{◌>>>◌, shl, trailing_zeros, leading_zeros}

-- `vec[i]` and `vec[i] = w`.
pub word_at : List ℕ → ℕ → ℕ
word_at [] i = 0
word_at (w ∷ ws) zero = w
word_at (w ∷ ws) (suc i) = word_at ws i

unfoldable pub set_word : List ℕ → ℕ → ℕ → List ℕ
set_word [] i v = []
set_word (w ∷ ws) zero v = v ∷ ws
set_word (w ∷ ws) (suc i) v = w ∷ set_word ws i v

-- `vec![0; n]`.
pub zeros : ℕ → List ℕ
zeros zero = []
zeros (suc n) = 0 ∷ zeros n

abbrev pub word_bits : ℕ
word_bits = 64

abbrev pub word_shift : ℕ
word_shift = 6

abbrev pub word_mask : ℕ
word_mask = 63

abbrev pub u64_max : ℕ
u64_max = 2 ^ 64 - 1

-- `!x` of a `u64`.
abbrev pub not_u64 : ℕ → ℕ
not_u64 x = u64_max - x

pub record HierBitmap : Type 0 where
  pub cap : ℕ
  pub layer2 : ℕ
  pub layer1 : List ℕ
  pub layer0 : List ℕ

unfoldable pub new_bitmap : ℕ → HierBitmap
unfolding zeros
new_bitmap cap =
    let layer0_len = div_ceil cap word_bits in
    record {
      cap = cap;
      layer2 = 0;
      layer1 = zeros (div_ceil layer0_len word_bits);
      layer0 = zeros layer0_len;
    }

pub contains : HierBitmap → ℕ → Bool
unfolding word_at
contains b key =
    if leb b.cap key
    then false
    else not
        (bit_and (word_at b.layer0 (key >>> word_shift)) (shl 64 1 (bit_and key word_mask)) == 0)

pub set : HierBitmap → ℕ → HierBitmap × Bool
unfolding word_at set_word
set b key =
    let l0_word_index = key >>> word_shift in
    let l1_word_index = l0_word_index >>> word_shift in
    let l0_mask = shl 64 1 (bit_and key word_mask) in
    let old_l0_word = word_at b.layer0 l0_word_index in
    let old_l1_word = word_at b.layer1 l1_word_index in
    let b0 = record b { layer0 = set_word b.layer0 l0_word_index (bit_or old_l0_word l0_mask) } in
    let b1 = record b0 {
      layer1 =
          set_word b.layer1 l1_word_index
            (bit_or old_l1_word (shl 64 1 (bit_and l0_word_index word_mask)));
    } in
    let b2 = record b1 { layer2 = bit_or b.layer2 (shl 64 1 l1_word_index) } in
    if leb b.cap key
    then (b, false)
    else if not (bit_and old_l0_word l0_mask == 0)
    then (b, false)
    else if not (old_l0_word == 0)
    then (b0, true)
    else if old_l1_word == 0
    then (b2, true)
    else (b1, true)

pub remove : HierBitmap → ℕ → HierBitmap × Bool
unfolding word_at set_word
remove b key =
    let l0_word_index = key >>> word_shift in
    let l1_word_index = l0_word_index >>> word_shift in
    let l0_mask = shl 64 1 (bit_and key word_mask) in
    let l0_word = bit_and (word_at b.layer0 l0_word_index) (not_u64 l0_mask) in
    let l1_word =
      bit_and (word_at b.layer1 l1_word_index)
        (not_u64 (shl 64 1 (bit_and l0_word_index word_mask))) in
    let b0 = record b { layer0 = set_word b.layer0 l0_word_index l0_word } in
    let b1 = record b0 { layer1 = set_word b.layer1 l1_word_index l1_word } in
    let b2 = record b1 { layer2 = bit_and b.layer2 (not_u64 (shl 64 1 l1_word_index)) } in
    if leb b.cap key
    then (b, false)
    else if bit_and (word_at b.layer0 l0_word_index) l0_mask == 0
    then (b, false)
    else if not (l0_word == 0)
    then (b0, true)
    else if not (l1_word == 0)
    then (b1, true)
    else (b2, true)

-- Masks of a word.
abbrev pub bits_from : ℕ → ℕ
bits_from bit = shl 64 u64_max bit

abbrev pub bits_after : ℕ → ℕ
bits_after bit = if bit == word_mask then 0 else shl 64 u64_max (bit + 1)

abbrev pub bits_through : ℕ → ℕ
bits_through bit = u64_max >>> (word_mask - bit)

abbrev pub bits_before : ℕ → ℕ
bits_before bit = if bit == 0 then 0 else shl 64 1 bit - 1

pub highest_set_bit : ℕ → ℕ
highest_set_bit value = word_mask - leading_zeros 64 value

pub make_key : HierBitmap → ℕ → ℕ → Option ℕ
make_key b l0_word_index l0_bit_index =
    let key = bit_or (shl 64 l0_word_index word_shift) l0_bit_index in
    if ltb key b.cap then some key else none

-- `next_from` and `prev_from`: in the leaf word, then in the word of its summary, then in the top one.
pub next_from : HierBitmap → ℕ → Option ℕ
unfolding word_at make_key
next_from b start =
    let l0_word_index = start >>> word_shift in
    let candidates0 =
      bit_and (word_at b.layer0 l0_word_index) (bits_from (bit_and start word_mask)) in
    let l1_word_index = l0_word_index >>> word_shift in
    let candidates1 =
      bit_and (word_at b.layer1 l1_word_index) (bits_after (bit_and l0_word_index word_mask)) in
    let next_in_l1 = bit_or (shl 64 l1_word_index word_shift) (trailing_zeros 64 candidates1) in
    let candidates2 = bit_and b.layer2 (bits_after l1_word_index) in
    let next_l1_word_index = trailing_zeros 64 candidates2 in
    let next_in_l2 =
      bit_or (shl 64 next_l1_word_index word_shift)
        (trailing_zeros 64 (word_at b.layer1 next_l1_word_index)) in
    if leb b.cap start
    then none
    else if not (candidates0 == 0)
    then make_key b l0_word_index (trailing_zeros 64 candidates0)
    else if not (candidates1 == 0)
    then make_key b next_in_l1 (trailing_zeros 64 (word_at b.layer0 next_in_l1))
    else if candidates2 == 0
    then none
    else make_key b next_in_l2 (trailing_zeros 64 (word_at b.layer0 next_in_l2))

pub prev_from : HierBitmap → ℕ → Option ℕ
unfolding word_at make_key highest_set_bit
prev_from b start =
    let l0_word_index = start >>> word_shift in
    let candidates0 =
      bit_and (word_at b.layer0 l0_word_index) (bits_through (bit_and start word_mask)) in
    let l1_word_index = l0_word_index >>> word_shift in
    let candidates1 =
      bit_and (word_at b.layer1 l1_word_index) (bits_before (bit_and l0_word_index word_mask)) in
    let prev_in_l1 = bit_or (shl 64 l1_word_index word_shift) (highest_set_bit candidates1) in
    let candidates2 = bit_and b.layer2 (bits_before l1_word_index) in
    let prev_l1_word_index = highest_set_bit candidates2 in
    let prev_in_l2 =
      bit_or (shl 64 prev_l1_word_index word_shift)
        (highest_set_bit (word_at b.layer1 prev_l1_word_index)) in
    if leb b.cap start
    then none
    else if not (candidates0 == 0)
    then make_key b l0_word_index (highest_set_bit candidates0)
    else if not (candidates1 == 0)
    then make_key b prev_in_l1 (highest_set_bit (word_at b.layer0 prev_in_l1))
    else if candidates2 == 0
    then none
    else make_key b prev_in_l2 (highest_set_bit (word_at b.layer0 prev_in_l2))

pub next : HierBitmap → ℕ → Option ℕ
unfolding next_from
next b key = next_from b (key + 1)

pub next_or_eq : HierBitmap → ℕ → Option ℕ
unfolding next_from
next_or_eq b key = next_from b key

pub prev : HierBitmap → ℕ → Option ℕ
unfolding prev_from
prev b key = if (key == 0) || (b.cap == 0) then none else prev_from b (min (key - 1) (b.cap - 1))

pub prev_or_eq : HierBitmap → ℕ → Option ℕ
unfolding prev_from
prev_or_eq b key = if b.cap == 0 then none else prev_from b (min key (b.cap - 1))
