-- ===== src/TickSlab/Insertion.antt =====
-- That the insertion of a tick keeps the invariant of a slab, and what `get` returns after it; a new page is
-- linked in first.
use Prim.Native.Nat.{bit_or}
use rm_uniswap.Prelude.{
  ℕ, ◌^◌, ◌<◌, ◌≡◌, refl, sym, ap, ◌∙◌, arith, le→leb, lt→leb, ◌==◌, ==_iff, Bool-cases,
  Option-cases, inl, inr, lt_or_ge, some, none, if◌then◌else◌,
}
use rm_uniswap.Bitmap.Well.{length}
use rm_uniswap.Error.{ok}
use rm_uniswap.TickInfo.{TickInfo}
use rm_uniswap.TickKey.{cache_index, slot_index}
use rm_uniswap.TickPage
use rm_uniswap.TickPage.{TickSlabValue, new_page, get, is_initialized}
use rm_uniswap.TickPage.Slots.{slot_index_lem}
use rm_uniswap.TickPage.Payload.{get-writes, slot_bit}
use rm_uniswap.TickSlab.{
  Slab, TickSlab, get_key, get_slab, modify, with_page, insert_slab, link_page, insert, get_tick,
  tick_in,
}
use rm_uniswap.TickSlab.Crate.{SlabLaws}
use rm_uniswap.TickSlab.Link.{link_page-LinkedIn}
use rm_uniswap.TickSlab.Pages.{modify-Written, get_slab-some, get_slab-none}
use rm_uniswap.TickSlab.Well.{Linked, IsSlab, relinked-Relinked, tick_in-relinked}
use rm_uniswap.Word.{shl}
use rm_uniswap.Word.Digits.{bit_or_lt, digit, digit-zero, bit_or-pow_same}
use rm_uniswap.TickSlab.Writes.{IsLinked-kept, get-empty, Elsewhere, modify-IsSlab, get_tick-modify}

positive : (x i : ℕ) → digit x i ≡ 1 → 0 < x
positive x i e = elim (lt_or_ge 0 x) [
  | inl l ↦ l
  | inr g ↦
      let z : x ≡ 0 = omega arith in
      absurd (omega (arith, digit-zero i, sym (ap (λ y. digit y i) z) ∙ e))
]

module _ (slab : Slab) (laws : SlabLaws slab) where
  module _ (t : TickSlab slab) (h : IsSlab slab laws t) where
    -- `insert`: the page is there, or a new one is linked in first.
    record Room (c : ℕ) (u : TickSlab slab) : Type 0 where
      pub linked : Linked slab laws u
      pub others : Elsewhere slab laws u c
      pub page : TickSlabValue
      pub there : get_slab slab u c ≡ some page
      pub same : (j : ℕ) → get_tick slab u j ≡ get_tick slab t j
      pub spacing_eq : u.tick_spacing ≡ t.tick_spacing

    with_page-Room : (c : ℕ) → c < length t.cache → Room c (with_page slab t c (get_key slab t c))
    unfolding get_tick insert_slab
    with_page-Room c within = elim (Option-cases (get_key slab t c)) [
      | inr (key, has) ↦
          let (p, found) = h.in_order.keyed.stored c key has in
          rw has (record {
            linked = h.in_order;
            others = λ d p far e. h.full d p e;
            page = p;
            there = get_slab-some slab laws t h.in_order.keyed c key has ∙ found;
            same = λ j. refl;
            spacing_eq = refl;
          })
      | inl absent ↦
          let l =
            link_page-LinkedIn slab laws t h.in_order c within absent (new_page none none)
              (omega arith) in
          rw (absent, absent)
            (record {
              linked = l.still;
              others = λ d q far e.
                  let r =
                    relinked-Relinked _ _ _ _ (get_slab slab t d) q (sym (l.others d far) ∙ e) in
                  omega (arith, h.full d r.page r.was, r.map_eq);
              page = _;
              there = l.page_there;
              same = λ j. elim (Bool-cases (cache_index j == c)) [
                | inl at ↦
                    let i = (==_iff (cache_index j) c).0 at in
                    ap
                      (λ d.
                        tick_in slab j (get_slab slab (link_page slab t c (new_page none none)) d))
                      i
                    ∙ ap (λ o. tick_in slab j o) l.page_there
                    ∙ get-empty _ j refl
                    ∙ sym (
                        ap (λ d. tick_in slab j (get_slab slab t d)) i
                        ∙ ap (λ o. tick_in slab j o)
                            (get_slab-none slab laws t h.in_order.keyed c absent))
                | inr far ↦
                    ap (λ o. tick_in slab j o) (l.others (cache_index j) far)
                    ∙ tick_in-relinked slab j _ _ _ _ (get_slab slab t (cache_index j))
              ];
              spacing_eq = l.spacing_eq;
            })
    ]

    -- What a successful `insert` returns.
    pub record Inserted (k : ℕ) (info : TickInfo) (t' : TickSlab slab) : Type 0 where
      pub still : IsSlab slab laws t'
      pub reads :
          (j : ℕ)
          → k < 2 ^ 21
          → j < 2 ^ 21
          → get_tick slab t' j ≡ (if j == k then some info else get_tick slab t j)
      pub spacing_eq : t'.tick_spacing ≡ t.tick_spacing

    insert_word :
        (k : ℕ) (info : TickInfo) (p : TickSlabValue)
        → p.initialized_map < 2 ^ 32
        → ((TickPage.insert p k info).initialized_map < 2 ^ 32)
          × (0 < (TickPage.insert p k info).initialized_map)
    unfolding TickPage.insert
    insert_word k info p word =
        let m = p.initialized_map in
        let s = slot_index k in
        let small : s < 32 = omega (arith, slot_index_lem k) in
        let bit : shl 32 1 s ≡ 2 ^ s = slot_bit s small in
        let lt = bit_or_lt 32 m (shl 32 1 s) word (omega arith) in
        let on : digit (bit_or m (shl 32 1 s)) s ≡ 1 = rw bit (bit_or-pow_same m s) in
        (lt, positive (bit_or m (shl 32 1 s)) s on)

    pub insert-Inserted :
        (k : ℕ) (info : TickInfo)
        → cache_index k < length t.cache
        → (t' : TickSlab slab) × (insert slab t k info ≡ ok t') × Inserted k info t'
    unfolding insert TickPage.insert
    insert-Inserted k info within =
        let c = cache_index k in
        let u = with_page slab t c (get_key slab t c) in
        let room = with_page-Room c within in
        let f = λ (p : TickSlabValue). TickPage.insert p k info in
        let w = modify-Written slab laws u room.linked.keyed c f in
        let word = (room.linked.linked c room.page room.there).word in
        (
          modify slab u c f,
          rw (lt→leb (length t.cache) c within) refl,
          record {
            still =
                modify-IsSlab slab laws u room.linked c f room.others
                  (λ p il.
                    IsLinked-kept u.bitmap c p (f p) ((insert_word k info p il.word).0) refl refl
                      il)
                  (λ p there. (insert_word k info p (room.linked.linked c p there).word).1);
            reads = λ j hk hj.
                get_tick-modify slab laws u room.linked k j f (λ o. some info) room.page hk hj
                  room.there ((get-writes room.page k word info j).0)
                ∙ ap (λ o. if j == k then some info else o) (room.same j);
            spacing_eq = w.spacing_eq ∙ room.spacing_eq;
          },
        )

    pub insert_ok-Inserted :
        (k : ℕ) (info : TickInfo) (t' : TickSlab slab)
        → insert slab t k info ≡ ok t'
        → Inserted k info t'
    unfolding insert
    insert_ok-Inserted k info t' e = elim (lt_or_ge (cache_index k) (length t.cache)) [
      | inl within ↦
          let (u, e', i) = insert-Inserted k info within in
          let q : u ≡ t' = (let two = sym e' ∙ e in cc two) in rw (sym q) i
      | inr out ↦ cc (rw (le→leb (length t.cache) (cache_index k) out) at e)
    ]
