-- ===== src/TickSlab/Search.antt =====
-- That the searches of a slab find the nearest tick, over the pages and their links.
use rm_uniswap.Prelude.{
  ℕ, ◌+◌, ◌*◌, ◌%◌, ◌/◌, ◌^◌, ◌≤◌, ◌<◌, ◌≡◌, refl, sym, ap, ◌∙◌, arith, not, ◌==◌, Option-cases,
  inl, inr, lt_or_ge, pos_nonzero, Option, some, none, if◌then◌else◌,
}
use rm_uniswap.Bitmap.{HierBitmap}
use rm_uniswap.Bitmap.Search.{IsNext, none_beyond}
use rm_uniswap.Bitmap.SearchDown.{searches-AreNearest}
use rm_uniswap.Bitmap.Well.{present}
use rm_uniswap.Bitmap
use rm_uniswap.TickInfo.{TickInfo}
use rm_uniswap.TickKey.{from_parts}
use rm_uniswap.TickPage.{TickSlabValue, next_slot, first_slot}
use rm_uniswap.TickPage.Payload.{get_lem}
use rm_uniswap.TickPage.Slots.{slot_index_lem, IsFirst, slots-AreNearest}
use rm_uniswap.TickSlab.{
  Slab, TickSlab, get_slab, get_tick, tick_in, in_page, first_at, or_else, next,
}
use rm_uniswap.TickSlab.Crate.{SlabLaws}
use rm_uniswap.TickSlab.Key.{cache_index_lem, from_parts_page}
use rm_uniswap.TickSlab.Pages.{absent_page, page_of}
use rm_uniswap.TickSlab.Well.{IsSlab, there-present}
use rm_uniswap.Word.Digits.{digit, digit_le}

module _ (slab : Slab) (laws : SlabLaws slab) (t : TickSlab slab) (h : IsSlab slab laws t) where
  -- The tick that a search from a key returns: the nearest one above.
  abbrev pub IsAfter : ℕ → Option (ℕ × TickInfo) → Type 0
  IsAfter k none = (m : ℕ) → k < m → m < 2 ^ 21 → get_tick slab t m ≡ none
  IsAfter k (some (j, info)) =
      (k < j)
      × (j < 2 ^ 21)
      × (get_tick slab t j ≡ some info)
      × ((m : ℕ) → k < m → m < j → get_tick slab t m ≡ none)

  abbrev b : HierBitmap
  b = t.bitmap

  pub in_range : (c : ℕ) → present b c ≡ 1 → c < 2 ^ 16
  in_range c e = elim (lt_or_ge c b.cap) [
    | inl l ↦ omega (arith, h.in_order.keyed.well.cap_fits)
    | inr g ↦ absurd (omega (arith, none_beyond b h.in_order.keyed.well c g))
  ]

  pub off : (m : ℕ) → m < 2 ^ 21 → present b (m / 32) ≡ 0 → get_tick slab t m ≡ none
  unfolding get_tick
  off m hm e =
      ap (λ c. tick_in slab m (get_slab slab t c)) (cache_index_lem m hm)
      ∙ ap (λ o. tick_in slab m o) (absent_page slab laws t h.in_order.keyed (m / 32) e)

  at_page :
      (m : ℕ) (page : TickSlabValue)
      → m < 2 ^ 21
      → get_slab slab t (m / 32) ≡ some page
      → get_tick slab t m ≡ (
          if not (digit page.initialized_map (m % 32) == 0)
          then some (page.slots (m % 32))
          else none)
  unfolding get_tick
  at_page m page hm there =
      ap (λ c. tick_in slab m (get_slab slab t c)) (cache_index_lem m hm)
      ∙ ap (λ o. tick_in slab m o) there
      ∙ get_lem page m (h.in_order.linked (m / 32) page there).word
      ∙ ap (λ s. if not (digit page.initialized_map s == 0) then some (page.slots s) else none)
          (slot_index_lem m)

  pub vacant :
      (m c : ℕ) (page : TickSlabValue)
      → m < 2 ^ 21
      → m / 32 ≡ c
      → get_slab slab t c ≡ some page
      → digit page.initialized_map (m % 32) ≡ 0
      → get_tick slab t m ≡ none
  vacant m c page hm at there e =
      at_page m page hm (ap (λ c. get_slab slab t c) at ∙ there) ∙ rw e refl

  pub found :
      (c s : ℕ) (page : TickSlabValue)
      → get_slab slab t c ≡ some page
      → s < 32
      → digit page.initialized_map s ≡ 1
      → (from_parts c s ≡ c * 32 + s)
        × (c * 32 + s < 2 ^ 21)
        × (get_tick slab t (c * 32 + s) ≡ some (page.slots s))
  found c s page there hs e =
      let hc = in_range c (there-present slab laws t h.in_order.keyed c page there) in
      let q : (c * 32 + s) / 32 ≡ c = omega arith in
      let r : (c * 32 + s) % 32 ≡ s = omega arith in
      let small : c * 32 + s < 2 ^ 21 = omega arith in
      (
        from_parts_page c s hc hs,
        small,
        at_page (c * 32 + s) page small (ap (λ c. get_slab slab t c) q ∙ there) ∙ rw (r, e) refl,
      )

  full_first :
      (c : ℕ) (page : TickSlabValue)
      → get_slab slab t c ≡ some page
      → (first_slot page ≡ none)
      → 1 ≤ 0
  unfolding first_slot
  full_first c page there e =
      let n = pos_nonzero page.initialized_map (h.full c page there) in cc (rw n at e)

  module _ (k : ℕ) (hk : k < 2 ^ 21) where
    -- Over the pages.
    first_of :
        (d : ℕ) (page : TickSlabValue) (o : Option (ℕ × TickInfo))
        → get_slab slab t d ≡ some page
        → k / 32 < d
        → IsFirst page 0 o
        → (o ≡ none → 1 ≤ 0)
        → ((m : ℕ) → k < m → m / 32 < d → m < 2 ^ 21 → get_tick slab t m ≡ none)
        → IsAfter k (in_page slab d o)
    first_of d page none there up first full low = absurd (omega (arith, full refl))
    first_of d page (some (s, info)) there up (lo, hs, e, payload, gap) full low =
        let (at, small, got) = found d s page there hs e in
        rw (at, payload)
          (
            omega arith,
            small,
            got,
            λ m km mj. elim (lt_or_ge (m / 32) d) [
              | inl under ↦ low m km under (omega arith)
              | inr over ↦
                  vacant m d page (omega arith) (omega arith) there
                    (gap (m % 32) (omega arith) (omega arith))
            ],
          )

    first_at-IsAfter :
        (r : Option ℕ)
        → IsNext b (k / 32 + 1) r
        → ((m : ℕ) → k < m → m / 32 ≡ k / 32 → get_tick slab t m ≡ none)
        → IsAfter k (first_at slab t r)
    first_at-IsAfter none e here = λ m km hm. elim (lt_or_ge (k / 32) (m / 32)) [
      | inl over ↦ off m hm (e (m / 32) (omega arith))
      | inr under ↦ here m km (omega arith)
    ]
    first_at-IsAfter (some d) (lo, there, gap) here =
        let (page, got) = page_of slab laws t h.in_order.keyed d there in
        let il = h.in_order.linked d page got in
        rw got (
          first_of d page (first_slot page) got (omega arith)
            ((slots-AreNearest page il.word 0).first) (full_first d page got)
            (λ m km under hm. elim (lt_or_ge (k / 32) (m / 32)) [
              | inl over ↦ off m hm (gap (m / 32) (omega arith) under)
              | inr low ↦ here m km (omega arith)
            ]))

    in_page-IsAfter :
        (page : TickSlabValue) (o rest : Option (ℕ × TickInfo))
        → get_slab slab t (k / 32) ≡ some page
        → IsFirst page (k % 32 + 1) o
        → (((m : ℕ) → k < m → m / 32 ≡ k / 32 → get_tick slab t m ≡ none) → IsAfter k rest)
        → IsAfter k (or_else slab (in_page slab (k / 32) o) rest)
    in_page-IsAfter page none rest there first next = next (λ m km same.
        vacant m (k / 32) page (omega arith) same there
          (first (m % 32) (omega arith) (omega arith)))
    in_page-IsAfter page (some (s, info)) rest there (lo, hs, e, payload, gap) next =
        let (at, small, got) = found (k / 32) s page there hs e in
        rw (at, payload)
          (
            omega arith,
            small,
            got,
            λ m km mj.
                vacant m (k / 32) page (omega arith) (omega arith) there
                  (gap (m % 32) (omega arith) (omega arith)),
          )

    beyond : (r : Option ℕ) → present b (k / 32) ≡ 0 → IsNext b (k / 32) r → IsNext b (k / 32 + 1) r
    beyond none gone e = λ m l. e m (omega arith)
    beyond (some d) gone (lo, there, gap) = elim (lt_or_ge (k / 32) d) [
      | inl l ↦ (omega arith, there, λ m a z. gap m (omega arith) z)
      | inr g ↦
          let q : d ≡ k / 32 = omega arith in
          absurd (omega (arith, there, gone, ap (λ x. present b x) q))
    ]

    pub missing_page : get_slab slab t (k / 32) ≡ none → present b (k / 32) ≡ 0
    missing_page e = elim (lt_or_ge (present b (k / 32)) 1) [
      | inl l ↦ omega arith
      | inr g ↦
          let one : present b (k / 32) ≡ 1 =
            omega (arith, digit_le (Bitmap.word_at b.layer0 (k / 32 / 64)) (k / 32 % 64)) in
          let (p, there) = page_of slab laws t h.in_order.keyed (k / 32) one in cc (there, e)
    ]

    pub here_off :
        present b (k / 32) ≡ 0 → (m : ℕ) → k < m → m / 32 ≡ k / 32 → get_tick slab t m ≡ none
    here_off e m km same = off m (omega arith) (ap (λ c. present b c) same ∙ e)

    pub next-IsAfter : IsAfter k (next slab t k)
    unfolding next
    next-IsAfter = rw (cache_index_lem k hk) (elim (Option-cases (get_slab slab t (k / 32))) [
      | inl missing ↦
          let gone = missing_page missing in
          rw (missing, cache_index_lem k hk)
            (first_at-IsAfter (Bitmap.next_or_eq b (k / 32))
              (beyond (Bitmap.next_or_eq b (k / 32)) gone
                (searches-AreNearest b h.in_order.keyed.well (k / 32)).at_or_after)
              (here_off gone))
      | inr (page, there) ↦
          let il = h.in_order.linked (k / 32) page there in
          rw (there, cache_index_lem k hk)
            (in_page-IsAfter page (next_slot page k) (first_at slab t page.next_idx) there
              (rw (sym (slot_index_lem k)) ((slots-AreNearest page il.word k).after))
              (first_at-IsAfter page.next_idx il.after))
    ])
