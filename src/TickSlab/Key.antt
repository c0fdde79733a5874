-- ===== src/TickSlab/Key.antt =====
-- About the two parts of a key: its page and its slot.
use rm_uniswap.Prelude.{ℕ, ◌+◌, ◌*◌, ◌/◌, ◌%◌, ◌^◌, ◌<◌, ◌≡◌, refl, arith, false, true, ◌==◌}
use rm_uniswap.TickKey.{cache_index, slot_index, from_parts}
use rm_uniswap.TickPage.Slots.{slot_index_lem}
use rm_uniswap.Word.Fields.{bit_and_mask, bit_or_fields}

pub cache_index_lem : (k : ℕ) → k < 2 ^ 21 → cache_index k ≡ k / 32
unfolding cache_index
cache_index_lem k h =
    let page : k / 2 ^ 5 % 2 ^ 16 ≡ k / 2 ^ 5 = omega arith in
    rw (bit_and_mask 16 (k / 2 ^ 5), page) refl

pub from_parts_page : (c s : ℕ) → c < 2 ^ 16 → s < 32 → from_parts c s ≡ c * 32 + s
unfolding from_parts
from_parts_page c s hc hs =
    let placed : c * 2 ^ 5 % 2 ^ 32 ≡ c * 2 ^ 5 = omega arith in
    let slot : s % 2 ^ 5 ≡ s = omega arith in
    rw (bit_and_mask 5 s, placed, slot, bit_or_fields 5 c s (omega arith)) (omega arith)

-- Keys of other pages, and keys of one page.
pub other_page :
    (j k : ℕ)
    → j < 2 ^ 21
    → k < 2 ^ 21
    → (cache_index j == cache_index k) ≡ false
    → (j == k) ≡ false
other_page j k hj hk e =
    let a = cache_index_lem j hj in let b = cache_index_lem k hk in ground arith

pub same_page :
    (j k : ℕ)
    → j < 2 ^ 21
    → k < 2 ^ 21
    → (cache_index j == cache_index k) ≡ true
    → (slot_index j == slot_index k) ≡ (j == k)
same_page j k hj hk e =
    let a = cache_index_lem j hj in
    let b = cache_index_lem k hk in
    let c = slot_index_lem j in let d = slot_index_lem k in ground arith
