-- ===== src/TickSlab.antt =====
-- core/concentrated/ticks/slab.rs: `TickSlab`, pages of ticks behind a bitmap and a table of keys. The
-- crate `slab` is a parameter, the record `Slab`. An `expect` whose page is missing does nothing here;
-- the invariant of `TickSlab.Well` excludes it.
pub mod Allocate
pub mod Crate
pub mod Fresh
pub mod Insertion
pub mod Key
pub mod Keyed
pub mod Link
pub mod Links
pub mod Pages
pub mod Removal
pub mod Sample
pub mod Search
pub mod SearchDown
pub mod Store
mod Tests
pub mod Unlink
pub mod Well
pub mod Writes
use mathlib.Core.List.{List, [], ◌∷◌}
use mathlib.Core.Option
use rm_uniswap.Prelude.{
  ℕ, zero, suc, ◌+◌, ◌%◌, ◌^◌, ◌<◌, ◌≤◌, ◌≡◌, Bool, leb, ◌==◌, if◌then◌else◌, Option, none, some,
}
use rm_uniswap.Bitmap.{HierBitmap, new_bitmap, set_word, set}
use rm_uniswap.Bitmap
use rm_uniswap.Bitmap.Well.{length}
use rm_uniswap.Error.{Result, ok, err, invalid_tick}
use rm_uniswap.TickInfo.{TickInfo, TickInfoInner}
use rm_uniswap.TickKey
use rm_uniswap.TickKey.{cache_index, from_parts, calculate_cache_cap, max_liquidity_per_tick}
use rm_uniswap.TickPage.{
  TickSlabValue, new_page, initialized, is_initialized, with_slot, remove_tick, next_slot,
  prev_slot, first_slot, last_slot, set_prev_idx, set_next_idx, get,
}
use rm_uniswap.TickPage
use rm_uniswap.TickStore.Laws.{with_inner}

-- `Slab<TickSlabValue>`: `set` writes through `get_mut`, `remove` is `try_remove`.
pub record Slab : Type 1 where
  pub Values : Type 0
  pub new : Values
  pub len : Values → ℕ
  pub get : Values → ℕ → Option TickSlabValue
  pub set : Values → ℕ → TickSlabValue → Values
  pub insert : Values → TickSlabValue → Values × ℕ
  pub remove : Values → ℕ → Values

abbrev pub initial_cache_value : ℕ
initial_cache_value = 65535

-- `vec.get(i)`, and `vec![v; n]`.
pub get_elem? : List ℕ → ℕ → Option ℕ
get_elem? [] i = none
get_elem? (v ∷ vs) zero = some v
get_elem? (v ∷ vs) (suc i) = get_elem? vs i

pub repeated : ℕ → ℕ → List ℕ
repeated zero v = []
repeated (suc n) v = v ∷ repeated n v

abbrev pub allocated : Option ℕ → Option ℕ
allocated none = none
allocated (some key) = if key == initial_cache_value then none else some key

module _ (slab : Slab) where
  pub record TickSlab : Type 0 where
    pub bitmap : HierBitmap
    pub cache : List ℕ
    pub values : slab.Values
    pub tick_spacing : ℕ
    pub max_liquidity : ℕ

  pub new_slab : ℕ → TickSlab
  unfolding repeated
  new_slab spacing = record {
    bitmap = new_bitmap (calculate_cache_cap spacing);
    cache = repeated (calculate_cache_cap spacing) initial_cache_value;
    values = slab.new;
    tick_spacing = spacing;
    max_liquidity = max_liquidity_per_tick spacing;
  }

  pub get_key : TickSlab → ℕ → Option ℕ
  unfolding get_elem?
  get_key t c = allocated (get_elem? t.cache c)

  -- `get_slab`; the index that it returns with the page is the given one.
  abbrev pub page_under : TickSlab → Option ℕ → Option TickSlabValue
  page_under t none = none
  page_under t (some key) = slab.get t.values key

  pub get_slab : TickSlab → ℕ → Option TickSlabValue
  unfolding get_key
  get_slab t c = page_under t (get_key t c)

  -- A write through `get_slab_mut`.
  abbrev pub write_page :
      TickSlab → Option ℕ → Option TickSlabValue → (TickSlabValue → TickSlabValue) → TickSlab
  write_page t (some key) (some page) f = record t { values = slab.set t.values key (f page) }
  write_page t (some key) none f = t
  write_page t none page f = t

  pub modify : TickSlab → ℕ → (TickSlabValue → TickSlabValue) → TickSlab
  unfolding get_key get_slab
  modify t c f = write_page t (get_key t c) (get_slab t c) f

  -- The same at a page that is named by a link.
  abbrev pub modify_at : TickSlab → Option ℕ → (TickSlabValue → TickSlabValue) → TickSlab
  modify_at t none f = t
  modify_at t (some c) f = modify t c f

  -- A new page between its neighbours; the key is cast to `u16`.
  abbrev pub store_page : TickSlab → ℕ → slab.Values × ℕ → TickSlab
  store_page t c r = record t {
    bitmap = (set t.bitmap c).0;
    values = r.0;
    cache = set_word t.cache c (r.1 % 2 ^ 16);
  }

  pub link_page : TickSlab → ℕ → TickSlabValue → TickSlab
  unfolding modify
  link_page t c page =
      let prev_idx = Bitmap.prev t.bitmap c in
      let next_idx = Bitmap.next t.bitmap c in
      let t1 = modify_at t prev_idx (λ q. set_next_idx q (some c)) in
      let t2 = modify_at t1 next_idx (λ q. set_prev_idx q (some c)) in
      store_page t2 c (slab.insert t2.values (set_next_idx (set_prev_idx page prev_idx) next_idx))

  abbrev pub insert_page : TickSlab → ℕ → TickSlabValue → Option ℕ → TickSlab
  insert_page t c page (some key) = modify t c (λ q. page)
  insert_page t c page none = link_page t c page

  pub insert_slab : TickSlab → ℕ → TickSlabValue → TickSlab
  unfolding modify link_page get_key
  insert_slab t c page = insert_page t c page (get_key t c)

  abbrev pub with_page : TickSlab → ℕ → Option ℕ → TickSlab
  with_page t c (some key) = t
  with_page t c none = insert_slab t c (new_page none none)

  pub insert : TickSlab → ℕ → TickInfo → Result TickSlab
  unfolding insert_slab modify get_key
  insert t key info =
      let c = cache_index key in
      if leb (length t.cache) c
      then err invalid_tick
      else ok (modify (with_page t c (get_key t c)) c (λ p. TickPage.insert p key info))

  abbrev pub tick_in : ℕ → Option TickSlabValue → Option TickInfo
  tick_in key none = none
  tick_in key (some page) = get page key

  pub get_tick : TickSlab → ℕ → Option TickInfo
  unfolding get_slab
  get_tick t key = tick_in key (get_slab t (cache_index key))

  -- A write of the payload through `get_slab_mut` and `get_mut`.
  abbrev pub set_payload : ℕ → TickInfoInner → TickSlabValue → TickSlabValue
  set_payload key inner page =
      if is_initialized page key
      then record page {
        slots =
            with_slot page.slots (TickKey.slot_index key)
              (record (page.slots (TickKey.slot_index key)) { inner = inner });
      }
      else page

  pub set_inner : TickSlab → ℕ → TickInfoInner → TickSlab
  unfolding modify
  set_inner t key inner = modify t (cache_index key) (set_payload key inner)

  -- A slot of a page as a key, with its tick.
  abbrev pub in_page : ℕ → Option (ℕ × TickInfo) → Option (ℕ × TickInfo)
  in_page c none = none
  in_page c (some r) = some (from_parts c (r.0), r.1)

  abbrev pub first_in : ℕ → Option TickSlabValue → Option (ℕ × TickInfo)
  first_in c none = none
  first_in c (some page) = in_page c (first_slot page)

  abbrev pub last_in : ℕ → Option TickSlabValue → Option (ℕ × TickInfo)
  last_in c none = none
  last_in c (some page) = in_page c (last_slot page)

  abbrev pub first_at : TickSlab → Option ℕ → Option (ℕ × TickInfo)
  first_at t none = none
  first_at t (some c) = first_in c (get_slab t c)

  abbrev pub last_at : TickSlab → Option ℕ → Option (ℕ × TickInfo)
  last_at t none = none
  last_at t (some c) = last_in c (get_slab t c)

  -- `or_else`.
  abbrev pub or_else : Option (ℕ × TickInfo) → Option (ℕ × TickInfo) → Option (ℕ × TickInfo)
  or_else none other = other
  or_else (some r) other = some r

  abbrev pub next_from_page : TickSlab → ℕ → Option TickSlabValue → Option (ℕ × TickInfo)
  next_from_page t key (some page) =
      or_else (in_page (cache_index key) (next_slot page key)) (first_at t page.next_idx)
  next_from_page t key none = first_at t (Bitmap.next_or_eq t.bitmap (cache_index key))

  pub next : TickSlab → ℕ → Option (ℕ × TickInfo)
  unfolding get_slab
  next t key = next_from_page t key (get_slab t (cache_index key))

  abbrev pub prev_from_page : TickSlab → ℕ → Option TickSlabValue → Option (ℕ × TickInfo)
  prev_from_page t key (some page) =
      or_else (in_page (cache_index key) (prev_slot page key)) (last_at t page.prev_idx)
  prev_from_page t key none = last_at t (Bitmap.prev_or_eq t.bitmap (cache_index key))

  pub prev : TickSlab → ℕ → Option (ℕ × TickInfo)
  unfolding get_slab
  prev t key = prev_from_page t key (get_slab t (cache_index key))

  abbrev pub free_page : TickSlab → ℕ → Option ℕ → TickSlab
  free_page t c none = t
  free_page t c (some key) = record t {
    cache = set_word t.cache c initial_cache_value;
    bitmap = (Bitmap.remove t.bitmap c).0;
    values = slab.remove t.values key;
  }

  pub remove_slab : TickSlab → ℕ → TickSlab
  unfolding get_key
  remove_slab t c = free_page t c (get_key t c)

  -- The neighbours of an empty page are linked, and the page is freed.
  pub unlink : TickSlab → ℕ → Option ℕ → Option ℕ → TickSlab
  unfolding modify remove_slab
  unlink t c prev_idx next_idx =
      let t1 = modify_at t next_idx (λ q. set_prev_idx q prev_idx) in
      let t2 = modify_at t1 prev_idx (λ q. set_next_idx q next_idx) in remove_slab t2 c

  abbrev pub remove_from : TickSlab → ℕ → Option TickSlabValue → TickSlab
  remove_from t key none = t
  remove_from t key (some page) =
      let t1 = modify t (cache_index key) (λ p. remove_tick p key) in
      if initialized (remove_tick page key) == 0
      then unlink t1 (cache_index key) page.prev_idx page.next_idx
      else t1

  pub remove : TickSlab → ℕ → TickSlab
  unfolding get_slab modify unlink
  remove t key = remove_from t key (get_slab t (cache_index key))
