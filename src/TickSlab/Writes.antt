-- ===== src/TickSlab/Writes.antt =====
-- That the writes of a payload keep the invariant of a slab, and what `get` returns after them.
use Prim.Native.Nat.{bit_and}
use rm_uniswap.Prelude.{
  ℕ, ◌^◌, ◌<◌, ◌≡◌, refl, sym, ap, ◌∙◌, arith, false, ◌==◌, ==_iff, Bool-cases, Option-cases, inl,
  inr, Option, some, none, if◌then◌else◌, if_true, if_false,
}
use rm_uniswap.Bitmap.{HierBitmap}
use rm_uniswap.TickInfo.{TickInfo, TickInfoInner}
use rm_uniswap.TickKey.{cache_index, slot_index}
use rm_uniswap.TickPage.{TickSlabValue, get, is_initialized}
use rm_uniswap.TickSlab.{
  Slab, TickSlab, get_slab, modify, get_tick, set_payload, set_inner, tick_in,
}
use rm_uniswap.TickSlab.Crate.{SlabLaws}
use rm_uniswap.TickSlab.Key.{other_page, same_page}
use rm_uniswap.TickSlab.Pages.{modify-Written}
use rm_uniswap.TickSlab.Well.{IsLinked, Linked, IsSlab, mapped_if-some, modify-Linked}
use rm_uniswap.TickStore.Laws.{with_inner}
use rm_uniswap.Word.{shl}
use rm_uniswap.Word.Digits.{bit_and_le}

-- A page that keeps its links is still in order.
pub IsLinked-kept :
    (b : HierBitmap) (c : ℕ) (p q : TickSlabValue)
    → q.initialized_map < 2 ^ 32
    → q.prev_idx ≡ p.prev_idx
    → q.next_idx ≡ p.next_idx
    → IsLinked b c p
    → IsLinked b c q
IsLinked-kept b c p q word i j il = record {
  word = word;
  before = rw i il.before;
  after = rw j il.after;
}

-- A page without ticks.
pub get-empty : (p : TickSlabValue) (j : ℕ) → p.initialized_map ≡ 0 → get p j ≡ none
unfolding get is_initialized
get-empty p j e =
    let z : bit_and p.initialized_map (shl 32 1 (slot_index j)) ≡ 0 =
      omega (arith, bit_and_le p.initialized_map (shl 32 1 (slot_index j))) in
    rw z refl

module _ (slab : Slab) (laws : SlabLaws slab) where
  -- Every page but this one has a tick.
  abbrev pub Elsewhere : TickSlab slab → ℕ → Type 0
  Elsewhere t c =
      (d : ℕ) (p : TickSlabValue)
      → (d == c) ≡ false
      → get_slab slab t d ≡ some p
      → 0 < p.initialized_map

  module _ (t : TickSlab slab) (h : Linked slab laws t) (c : ℕ)
      (f : TickSlabValue → TickSlabValue) where
    pub modify-IsSlab :
        Elsewhere t c
        → ((p : TickSlabValue) → IsLinked t.bitmap c p → IsLinked t.bitmap c (f p))
        → ((p : TickSlabValue) → get_slab slab t c ≡ some p → 0 < (f p).initialized_map)
        → IsSlab slab laws (modify slab t c f)
    modify-IsSlab elsewhere keep filled = record {
      in_order = modify-Linked slab laws t h c f keep;
      full = λ d q e.
          let w = modify-Written slab laws t h.keyed c f in
          let (p, there, q_eq) =
            mapped_if-some slab laws (d == c) f (get_slab slab t d) q (sym (w.pages d) ∙ e) in
          elim (Bool-cases (d == c)) [
            | inl same ↦
                let i = (==_iff d c).0 same in
                let j : q ≡ f p = q_eq ∙ if_true _ _ _ same in
                rw j (filled p (sym (ap (λ k. get_slab slab t k) i) ∙ there))
            | inr far ↦ let j : q ≡ p = q_eq ∙ if_false _ _ _ far in rw j (elsewhere d p far there)
          ];
    }

  -- A write of one slot of a page that is there.
  pub get_tick-modify :
      (t : TickSlab slab) (h : Linked slab laws t) (k j : ℕ) (f : TickSlabValue → TickSlabValue)
      (W : Option TickInfo → Option TickInfo) (p : TickSlabValue)
      → k < 2 ^ 21
      → j < 2 ^ 21
      → get_slab slab t (cache_index k) ≡ some p
      → get (f p) j ≡ (if slot_index j == slot_index k then W (get p j) else get p j)
      → get_tick slab (modify slab t (cache_index k) f) j
        ≡ (if j == k then W (get_tick slab t j) else get_tick slab t j)
  unfolding get_tick
  get_tick-modify t h k j f W p hk hj there law =
      let w = modify-Written slab laws t h.keyed (cache_index k) f in
      ap (λ o. tick_in slab j o) (w.pages (cache_index j))
      ∙ elim (Bool-cases (cache_index j == cache_index k)) [
        | inl same ↦
            let here : get_slab slab t (cache_index j) ≡ some p =
              ap (λ i. get_slab slab t i) ((==_iff (cache_index j) (cache_index k)).0 same)
              ∙ there in
            rw (same, here, sym (same_page j k hj hk same)) law
        | inr far ↦ rw (far, other_page j k hj hk far) refl
      ]

  module _ (t : TickSlab slab) (h : IsSlab slab laws t) where
    elsewhere : (c : ℕ) → Elsewhere t c
    elsewhere c d p far e = h.full d p e

    -- `set_inner`.
    payload_map :
        (k : ℕ) (inner : TickInfoInner) (p : TickSlabValue)
        → ((set_payload slab k inner p).initialized_map ≡ p.initialized_map)
          × ((set_payload slab k inner p).prev_idx ≡ p.prev_idx)
          × ((set_payload slab k inner p).next_idx ≡ p.next_idx)
    payload_map k inner p = elim (Bool-cases (is_initialized p k)) [
      | inl e ↦ rw e (refl, refl, refl)
      | inr e ↦ rw e (refl, refl, refl)
    ]

    get-set_payload :
        (k j : ℕ) (inner : TickInfoInner) (p : TickSlabValue)
        → get (set_payload slab k inner p) j
          ≡ (if slot_index j == slot_index k then with_inner inner (get p j) else get p j)
    unfolding get is_initialized
    get-set_payload k j inner p = elim (Bool-cases (slot_index j == slot_index k)) [
      | inl same ↦
          let i = (==_iff (slot_index j) (slot_index k)).0 same in
          elim (Bool-cases (is_initialized p k)) [
            | inl e ↦
                rw (i, (==_iff (slot_index k) (slot_index k)).1 refl, e, e)
                  (rw ((==_iff (slot_index k) (slot_index k)).1 refl) refl)
            | inr e ↦ rw (i, (==_iff (slot_index k) (slot_index k)).1 refl, e, e) refl
          ]
      | inr far ↦ elim (Bool-cases (is_initialized p k)) [
        | inl e ↦ rw (far, e, far) refl
        | inr e ↦ rw (far, e) refl
      ]
    ]

    pub set_inner-IsSlab :
        (k : ℕ) (inner : TickInfoInner) → IsSlab slab laws (set_inner slab t k inner)
    unfolding set_inner
    set_inner-IsSlab k inner =
        modify-IsSlab t h.in_order (cache_index k) (λ p. set_payload slab k inner p)
          (elsewhere (cache_index k))
          (λ p il.
            let (m, a, b) = payload_map k inner p in
            IsLinked-kept t.bitmap (cache_index k) p (set_payload slab k inner p)
              (omega (arith, il.word)) a b il)
          (λ p there.
            let (m, a, b) = payload_map k inner p in omega (arith, h.full (cache_index k) p there))

    untouched :
        (k j : ℕ) (inner : TickInfoInner)
        → k < 2 ^ 21
        → j < 2 ^ 21
        → get_slab slab t (cache_index k) ≡ none
        → get_tick slab (modify slab t (cache_index k) (λ p. set_payload slab k inner p)) j
          ≡ (if j == k then with_inner inner (get_tick slab t j) else get_tick slab t j)
    unfolding get_tick
    untouched k j inner hk hj missing =
        let w =
          modify-Written slab laws t h.in_order.keyed (cache_index k)
            (λ p. set_payload slab k inner p) in
        ap (λ o. tick_in slab j o) (w.pages (cache_index j))
        ∙ elim (Bool-cases (cache_index j == cache_index k)) [
          | inr far ↦ rw (far, other_page j k hj hk far) refl
          | inl same ↦
              let here : get_slab slab t (cache_index j) ≡ none =
                ap (λ i. get_slab slab t i) ((==_iff (cache_index j) (cache_index k)).0 same)
                ∙ missing in
              rw (same, here) (elim (Bool-cases (j == k)) [ inl e ↦ rw e refl | inr e ↦ rw e refl ])
        ]

    pub get_tick-set_inner :
        (k j : ℕ) (inner : TickInfoInner)
        → k < 2 ^ 21
        → j < 2 ^ 21
        → get_tick slab (set_inner slab t k inner) j
          ≡ (if j == k then with_inner inner (get_tick slab t j) else get_tick slab t j)
    unfolding set_inner
    get_tick-set_inner k j inner hk hj = elim (Option-cases (get_slab slab t (cache_index k))) [
      | inr (p, there) ↦
          get_tick-modify t h.in_order k j (λ p. set_payload slab k inner p)
            (λ o. with_inner inner o) p hk hj there (get-set_payload k j inner p)
      | inl missing ↦ untouched k j inner hk hj missing
    ]

    pub spacing-set_inner :
        (k : ℕ) (inner : TickInfoInner) → (set_inner slab t k inner).tick_spacing ≡ t.tick_spacing
    unfolding set_inner
    spacing-set_inner k inner =
        (modify-Written slab laws t h.in_order.keyed (cache_index k)
          (λ p. set_payload slab k inner p)).spacing_eq
