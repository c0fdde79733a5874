-- ===== src/TickSlab/Fresh.antt =====
-- That a new slab is in order and has no tick.
use rm_uniswap.Prelude.{ℕ, zero, suc, ◌^◌, ◌<◌, ◌≡◌, refl, ap, ◌∙◌, arith, none}
use rm_uniswap.Prelude.Int.{pos}
use rm_uniswap.Bitmap.{new_bitmap}
use rm_uniswap.Bitmap.Fresh.{new_bitmap-IsWell}
use rm_uniswap.Bitmap.Well.{length}
use rm_uniswap.TickKey.{cache_index, from_tick, calculate_cache_cap}
use rm_uniswap.TickKey.Key.{IsSpacing, from_tick-max_le}
use rm_uniswap.TickSlab.{
  Slab, get_elem?, allocated, repeated, new_slab, get_key, get_slab, get_tick, tick_in,
}
use rm_uniswap.TickSlab.Crate.{SlabLaws}
use rm_uniswap.TickSlab.Key.{cache_index_lem}
use rm_uniswap.TickSlab.Keyed.{pages_of}
use rm_uniswap.TickSlab.Well.{IsSlab}

cap_fits : (s : ℕ) → IsSpacing s → calculate_cache_cap s < 2 ^ 16
unfolding calculate_cache_cap
cap_fits s hs =
    let small = from_tick-max_le s hs in
    omega (arith, cache_index_lem (from_tick (pos 887272) s) (omega arith))

length-repeated : (n v : ℕ) → n ≡ length (repeated n v)
unfolding repeated length
length-repeated zero v = refl
length-repeated (suc n) v = ap (λ m. suc m) (length-repeated n v)

no_pages : (n : ℕ) → 0 ≡ pages_of (repeated n 65535)
unfolding repeated pages_of
no_pages zero = refl
no_pages (suc n) = no_pages n

no_key : (n c : ℕ) → allocated (get_elem? (repeated n 65535) c) ≡ none
unfolding repeated get_elem?
no_key zero c = refl
no_key (suc n) zero = refl
no_key (suc n) (suc c) = no_key n c

module _ (slab : Slab) (laws : SlabLaws slab) (s : ℕ) (hs : IsSpacing s) where
  no_slab_key : (c : ℕ) → get_key slab (new_slab slab s) c ≡ none
  unfolding get_key new_slab
  no_slab_key c = no_key (calculate_cache_cap s) c

  no_slab : (c : ℕ) → get_slab slab (new_slab slab s) c ≡ none
  unfolding get_slab
  no_slab c = rw (no_slab_key c) refl

  -- For any slab crate that keeps its documented behaviour and a nonzero 15-bit spacing, a new slab
  -- keeps the invariant, and `get` returns none for every key.
  pub new_slab-IsSlab :
      IsSlab slab laws (new_slab slab s) × ((key : ℕ) → get_tick slab (new_slab slab s) key ≡ none)
  unfolding new_slab new_bitmap get_tick
  new_slab-IsSlab =
      let (well, absent) = new_bitmap-IsWell (calculate_cache_cap s) (cap_fits s hs) in
      (
        record {
          in_order = record {
            keyed = record {
              well = well;
              cap_eq = length-repeated (calculate_cache_cap s) 65535;
              fits = laws.new_fits;
              len_eq = laws.new_len ∙ no_pages (calculate_cache_cap s);
              stored = λ c k e. cc (no_slab_key c, e);
              injective = λ c d k e f. cc (no_slab_key c, e);
              keyed = λ c e. absurd (omega (arith, absent c));
              unkeyed = λ c e. no_slab_key c;
            };
            linked = λ c p e. cc (no_slab c, e);
          };
          full = λ c p e. cc (no_slab c, e);
        },
        λ key. ap (λ o. tick_in slab key o) (no_slab (cache_index key)),
      )
