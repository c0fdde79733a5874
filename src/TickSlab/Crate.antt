-- ===== src/TickSlab/Crate.antt =====
-- What the code relies on in the crate `slab`: a value stays under its key, a key is fresh, the length
-- is the number of values, and vacated places are used again before the storage grows, so that a slab
-- that never held more than 65535 values (`Fits`) has smaller keys only.
use rm_uniswap.Prelude.{ℕ, suc, ◌<◌, ◌≡◌, ◌==◌, if◌then◌else◌, some, none}
use rm_uniswap.TickPage.{TickSlabValue}
use rm_uniswap.TickSlab.{Slab}

pub record SlabLaws (slab : Slab) : Type 1 where
  pub Fits : slab.Values → Type 0
  pub new_fits : Fits slab.new
  pub new_len : slab.len slab.new ≡ 0
  pub new_get : (k : ℕ) → slab.get slab.new k ≡ none
  pub set_fits : (v : slab.Values) (k : ℕ) (p : TickSlabValue) → Fits v → Fits (slab.set v k p)
  pub set_len :
      (v : slab.Values) (k : ℕ) (p : TickSlabValue) → slab.len (slab.set v k p) ≡ slab.len v
  pub set_get :
      (v : slab.Values) (k j : ℕ) (p q : TickSlabValue)
      → slab.get v k ≡ some q
      → slab.get (slab.set v k p) j ≡ (if j == k then some p else slab.get v j)
  pub insert_fits :
      (v : slab.Values) (p : TickSlabValue)
      → Fits v
      → slab.len v < 65535
      → Fits ((slab.insert v p).0)
  pub insert_key :
      (v : slab.Values) (p : TickSlabValue)
      → Fits v
      → slab.len v < 65535
      → (slab.insert v p).1 < 65535
  pub insert_len :
      (v : slab.Values) (p : TickSlabValue) → slab.len ((slab.insert v p).0) ≡ suc (slab.len v)
  pub insert_fresh : (v : slab.Values) (p : TickSlabValue) → slab.get v ((slab.insert v p).1) ≡ none
  pub insert_get :
      (v : slab.Values) (p : TickSlabValue) (j : ℕ)
      → slab.get ((slab.insert v p).0) j
        ≡ (if j == (slab.insert v p).1 then some p else slab.get v j)
  pub remove_fits : (v : slab.Values) (k : ℕ) → Fits v → Fits (slab.remove v k)
  pub remove_len :
      (v : slab.Values) (k : ℕ) (q : TickSlabValue)
      → slab.get v k ≡ some q
      → suc (slab.len (slab.remove v k)) ≡ slab.len v
  pub remove_get :
      (v : slab.Values) (k j : ℕ)
      → slab.get (slab.remove v k) j ≡ (if j == k then none else slab.get v j)
