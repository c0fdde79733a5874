-- ===== src/TickSlab/SearchDown.antt =====
-- That the searches of a slab downwards find the nearest tick, over the pages and their links.
use rm_uniswap.Prelude.{
  ℕ, ◌%◌, ◌/◌, ◌^◌, ◌≤◌, ◌<◌, ◌≡◌, refl, sym, ap, ◌∙◌, arith, Option-cases, inl, inr, lt_or_ge,
  pos_nonzero, Option, some, none,
}
use rm_uniswap.Bitmap.{HierBitmap}
use rm_uniswap.Bitmap.SearchDown.{IsBelow, IsPrev, searches-AreNearest}
use rm_uniswap.Bitmap.Well.{present}
use rm_uniswap.Bitmap
use rm_uniswap.TickInfo.{TickInfo}
use rm_uniswap.TickPage.{TickSlabValue, prev_slot, last_slot}
use rm_uniswap.TickPage.Slots.{slot_index_lem, IsLast, slots-AreNearest}
use rm_uniswap.TickSlab.{Slab, TickSlab, get_slab, get_tick, in_page, last_at, or_else, prev}
use rm_uniswap.TickSlab.Crate.{SlabLaws}
use rm_uniswap.TickSlab.Key.{cache_index_lem}
use rm_uniswap.TickSlab.Pages.{page_of}
use rm_uniswap.TickSlab.Well.{IsSlab}
use rm_uniswap.TickSlab.Search.{off, vacant, found, missing_page}

module _ (slab : Slab) (laws : SlabLaws slab) (t : TickSlab slab) (h : IsSlab slab laws t) where
  -- The tick that a search from a key returns: the nearest one below.
  abbrev pub IsBefore : ℕ → Option (ℕ × TickInfo) → Type 0
  IsBefore k none = (m : ℕ) → m < k → get_tick slab t m ≡ none
  IsBefore k (some (j, info)) =
      (j < k)
      × (get_tick slab t j ≡ some info)
      × ((m : ℕ) → j < m → m < k → get_tick slab t m ≡ none)

  abbrev b : HierBitmap
  b = t.bitmap

  full_last :
      (c : ℕ) (page : TickSlabValue)
      → get_slab slab t c ≡ some page
      → (last_slot page ≡ none)
      → 1 ≤ 0
  unfolding last_slot
  full_last c page there e =
      let n = pos_nonzero page.initialized_map (h.full c page there) in cc (rw n at e)

  module _ (k : ℕ) (hk : k < 2 ^ 21) where
    last_of :
        (d : ℕ) (page : TickSlabValue) (o : Option (ℕ × TickInfo))
        → get_slab slab t d ≡ some page
        → d < k / 32
        → IsLast page 32 o
        → (o ≡ none → 1 ≤ 0)
        → ((m : ℕ) → m < k → d < m / 32 → get_tick slab t m ≡ none)
        → IsBefore k (in_page slab d o)
    last_of d page none there down last full high = absurd (omega (arith, full refl))
    last_of d page (some (s, info)) there down (hs, e, payload, gap) full high =
        let (at, small, got) = found slab laws t h d s page there hs e in
        rw (at, payload)
          (
            omega arith,
            got,
            λ m jm mk. elim (lt_or_ge d (m / 32)) [
              | inl over ↦ high m mk over
              | inr under ↦
                  vacant slab laws t h m d page (omega arith) (omega arith) there
                    (gap (m % 32) (omega arith) (omega arith))
            ],
          )

    last_at-IsBefore :
        (r : Option ℕ)
        → IsBelow b (k / 32) r
        → ((m : ℕ) → m < k → m / 32 ≡ k / 32 → get_tick slab t m ≡ none)
        → IsBefore k (last_at slab t r)
    last_at-IsBefore none e here = λ m mk. elim (lt_or_ge (m / 32) (k / 32)) [
      | inl under ↦ off slab laws t h m (omega arith) (e (m / 32) under)
      | inr over ↦ here m mk (omega arith)
    ]
    last_at-IsBefore (some d) (lo, there, gap) here =
        let (page, got) = page_of slab laws t h.in_order.keyed d there in
        let il = h.in_order.linked d page got in
        rw got (
          last_of d page (last_slot page) got lo ((slots-AreNearest page il.word 0).last)
            (full_last d page got)
            (λ m mk over. elim (lt_or_ge (m / 32) (k / 32)) [
              | inl under ↦ off slab laws t h m (omega arith) (gap (m / 32) over under)
              | inr high ↦ here m mk (omega arith)
            ]))

    in_page-IsBefore :
        (page : TickSlabValue) (o rest : Option (ℕ × TickInfo))
        → get_slab slab t (k / 32) ≡ some page
        → IsLast page (k % 32) o
        → (((m : ℕ) → m < k → m / 32 ≡ k / 32 → get_tick slab t m ≡ none) → IsBefore k rest)
        → IsBefore k (or_else slab (in_page slab (k / 32) o) rest)
    in_page-IsBefore page none rest there last before = before (λ m mk same.
        vacant slab laws t h m (k / 32) page (omega arith) same there (last (m % 32) (omega arith)))
    in_page-IsBefore page (some (s, info)) rest there (hs, e, payload, gap) before =
        let (at, small, got) = found slab laws t h (k / 32) s page there (omega arith) e in
        rw (at, payload)
          (
            omega arith,
            got,
            λ m jm mk.
                vacant slab laws t h m (k / 32) page (omega arith) (omega arith) there
                  (gap (m % 32) (omega arith) (omega arith)),
          )

    below : (r : Option ℕ) → present b (k / 32) ≡ 0 → IsPrev b (k / 32) r → IsBelow b (k / 32) r
    below none gone e = λ m l. e m (omega arith)
    below (some d) gone (lo, there, gap) = elim (lt_or_ge d (k / 32)) [
      | inl l ↦ (l, there, λ m a z. gap m a (omega arith))
      | inr g ↦
          let q : d ≡ k / 32 = omega arith in
          absurd (omega (arith, there, gone, ap (λ x. present b x) q))
    ]

    pub prev-IsBefore : IsBefore k (prev slab t k)
    unfolding prev
    prev-IsBefore = rw (cache_index_lem k hk) (elim (Option-cases (get_slab slab t (k / 32))) [
      | inl missing ↦
          let gone = missing_page slab laws t h k hk missing in
          rw (missing, cache_index_lem k hk)
            (last_at-IsBefore (Bitmap.prev_or_eq b (k / 32))
              (below (Bitmap.prev_or_eq b (k / 32)) gone
                (searches-AreNearest b h.in_order.keyed.well (k / 32)).at_or_before)
              (λ m mk same. off slab laws t h m (omega arith) (ap (λ c. present b c) same ∙ gone)))
      | inr (page, there) ↦
          let il = h.in_order.linked (k / 32) page there in
          rw (there, cache_index_lem k hk)
            (in_page-IsBefore page (prev_slot page k) (last_at slab t page.prev_idx) there
              (rw (sym (slot_index_lem k)) ((slots-AreNearest page il.word k).before))
              (last_at-IsBefore page.prev_idx il.before))
    ])
