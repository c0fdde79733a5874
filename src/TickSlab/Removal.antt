-- ===== src/TickSlab/Removal.antt =====
-- That the removal of a tick keeps the invariant of a slab, and what `get` returns after it; an empty page
-- is unlinked.
use rm_uniswap.Prelude.{
  ℕ, zero, suc, ◌+◌, ◌-◌, ◌/◌, ◌^◌, ◌<◌, ◌≡◌, refl, sym, ap, ◌∙◌, arith, ◌==◌, ==_iff, Bool-cases,
  Option-cases, inl, inr, lt_or_ge, some, none, if◌then◌else◌, if_true, if_false,
}
use rm_uniswap.Bitmap.Search.{IsNext}
use rm_uniswap.Bitmap.SearchDown.{IsBelow}
use rm_uniswap.TickKey.{cache_index, slot_index}
use rm_uniswap.TickPage.{TickSlabValue, info_default, initialized, remove_tick, count_ones}
use rm_uniswap.TickPage.Payload.{get-writes}
use rm_uniswap.TickSlab.{
  Slab, TickSlab, get_key, get_slab, modify, unlink, remove, remove_from, get_tick, tick_in,
}
use rm_uniswap.TickSlab.Crate.{SlabLaws}
use rm_uniswap.TickSlab.Keyed.{mapped}
use rm_uniswap.TickSlab.Pages.{modify-Written, get_slab-none}
use rm_uniswap.TickSlab.Unlink.{unlink-UnlinkedIn}
use rm_uniswap.TickSlab.Well.{
  IsLinked, Linked, IsSlab, modify-Linked, relinked-Relinked, tick_in-relinked,
}
use rm_uniswap.TickSlab.Writes.{IsLinked-kept, get-empty, modify-IsSlab, get_tick-modify}
use rm_uniswap.Word.{shl}
use rm_uniswap.Word.Digits.{bit_and_le}
use rm_uniswap.Word.Pow.{two_pow_suc}

-- A word without ones is zero.
count_ones_zero : (w x : ℕ) → x < 2 ^ w → count_ones w x ≡ 0 → x ≡ 0
unfolding count_ones
count_ones_zero zero x h e = omega arith
count_ones_zero (suc w) x h e =
    omega (arith, count_ones_zero w (x / 2) (omega (arith, two_pow_suc w)) (omega arith))

count_ones_of_zero : (w : ℕ) → count_ones w 0 ≡ 0
unfolding count_ones
count_ones_of_zero zero = refl
count_ones_of_zero (suc w) = omega (arith, count_ones_of_zero w)

module _ (slab : Slab) (laws : SlabLaws slab) (t : TickSlab slab) (h : IsSlab slab laws t)
    (k : ℕ) where
  abbrev c : ℕ
  c = cache_index k

  abbrev f : TickSlabValue → TickSlabValue
  f p = remove_tick p k

  -- What `remove` returns.
  pub record Removed (t' : TickSlab slab) : Type 0 where
    pub still : IsSlab slab laws t'
    pub reads :
        (j : ℕ)
        → k < 2 ^ 21
        → j < 2 ^ 21
        → get_tick slab t' j ≡ (if j == k then none else get_tick slab t j)
    pub spacing_eq : t'.tick_spacing ≡ t.tick_spacing

  keep : (p : TickSlabValue) → IsLinked t.bitmap c p → IsLinked t.bitmap c (f p)
  unfolding remove_tick
  keep p il =
      IsLinked-kept t.bitmap c p (f p)
        (omega
          (arith, il.word, bit_and_le p.initialized_map (2 ^ 32 - 1 - shl 32 1 (slot_index k))))
        refl refl il

  module _ (p : TickSlabValue) (there : get_slab slab t c ≡ some p) where
    il : IsLinked t.bitmap c p
    il = h.in_order.linked c p there

    abbrev t1 : TickSlab slab
    t1 = modify slab t c f

    linked1 : Linked slab laws t1
    linked1 = modify-Linked slab laws t h.in_order c f keep

    bitmap_eq : t1.bitmap ≡ t.bitmap
    bitmap_eq = (modify-Written slab laws t h.in_order.keyed c f).bitmap_eq

    reads1 :
        (j : ℕ)
        → k < 2 ^ 21
        → j < 2 ^ 21
        → get_tick slab t1 j ≡ (if j == k then none else get_tick slab t j)
    reads1 j hk hj =
        get_tick-modify slab laws t h.in_order k j f (λ o. none) p hk hj there
          ((get-writes p k il.word info_default j).1)

    page1 : get_slab slab t1 c ≡ some (f p)
    page1 =
        (modify-Written slab laws t h.in_order.keyed c f).pages c
        ∙ if_true _ _ _ ((==_iff c c).1 refl)
        ∙ ap (λ o. mapped f o) there

    has : (key : ℕ) × (get_key slab t1 c ≡ some key)
    has = elim (Option-cases (get_key slab t1 c)) [
      | inr (key, e) ↦ (key, e)
      | inl e ↦ cc (get_slab-none slab laws t1 linked1.keyed c e, page1)
    ]

    -- The page has other ticks.
    shorter : 0 < (f p).initialized_map → Removed t1
    shorter filled = record {
      still =
          modify-IsSlab slab laws t h.in_order c f (λ d q far e. h.full d q e) keep
            (λ q e. let i : q ≡ p = (let two = sym e ∙ there in cc two) in rw i filled);
      reads = reads1;
      spacing_eq = (modify-Written slab laws t h.in_order.keyed c f).spacing_eq;
    }

    -- It has none, and is unlinked.
    emptied : (f p).initialized_map ≡ 0 → Removed (unlink slab t1 c p.prev_idx p.next_idx)
    unfolding get_tick
    emptied no_ticks =
        let (key, e) = has in
        let below : IsBelow t1.bitmap c p.prev_idx = rw bitmap_eq il.before in
        let after : IsNext t1.bitmap (c + 1) p.next_idx = rw bitmap_eq il.after in
        let u = unlink-UnlinkedIn slab laws t1 linked1 c key e p.prev_idx p.next_idx below after in
        let w = modify-Written slab laws t h.in_order.keyed c f in
        record {
          still = record {
            in_order = u.still;
            full = λ d q got. elim (Bool-cases (d == c)) [
              | inl same ↦ (let two = sym (if_true _ _ _ same) ∙ sym (u.pages d) ∙ got in cc two)
              | inr far ↦
                  let r =
                    relinked-Relinked _ _ _ _ (get_slab slab t1 d) q
                      (sym (if_false _ _ _ far) ∙ sym (u.pages d) ∙ got) in
                  let was : get_slab slab t d ≡ some r.page =
                    sym (if_false _ _ _ far) ∙ sym (w.pages d) ∙ r.was in
                  omega (arith, h.full d r.page was, r.map_eq)
            ];
          };
          reads = λ j hk hj.
              ap (λ o. tick_in slab j o) (u.pages (cache_index j))
              ∙ elim (Bool-cases (cache_index j == c)) [
                | inr far ↦ rw far (
                    tick_in-relinked slab j _ _ _ _ (get_slab slab t1 (cache_index j))
                    ∙ reads1 j hk hj)
                | inl same ↦
                    let i = (==_iff (cache_index j) c).0 same in
                    let was : get_tick slab t1 j ≡ none =
                      ap (λ d. tick_in slab j (get_slab slab t1 d)) i
                      ∙ ap (λ o. tick_in slab j o) page1
                      ∙ get-empty (f p) j no_ticks in
                    rw same (sym was ∙ reads1 j hk hj)
              ];
          spacing_eq = u.spacing_eq ∙ w.spacing_eq;
        }

    remove_from-Removed : Removed (remove_from slab t k (some p))
    unfolding initialized
    remove_from-Removed = elim (Bool-cases (initialized (f p) == 0)) [
      | inl none_left ↦ rw none_left (
          emptied (
            count_ones_zero 32 (f p).initialized_map (keep p il).word
              ((==_iff (initialized (f p)) 0).0 none_left)))
      | inr some_left ↦ rw some_left (
          shorter (elim (lt_or_ge 0 (f p).initialized_map) [
            | inl l ↦ l
            | inr g ↦
                let z : (f p).initialized_map ≡ 0 = omega arith in
                let q : initialized (f p) ≡ 0 =
                  ap (λ x. count_ones 32 x) z ∙ count_ones_of_zero 32 in
                cc ((==_iff (initialized (f p)) 0).1 q, some_left)
          ]))
    ]

  pub remove-Removed : Removed (remove slab t k)
  unfolding remove get_tick
  remove-Removed = elim (Option-cases (get_slab slab t c)) [
    | inr (p, there) ↦ rw there (remove_from-Removed p there)
    | inl missing ↦ rw missing (record {
      still = h;
      reads = λ j hk hj. elim (Bool-cases (j == k)) [
        | inr other ↦ rw other refl
        | inl same ↦
            let i = (==_iff j k).0 same in
            rw same (
              ap (λ x. tick_in slab x (get_slab slab t (cache_index x))) i
              ∙ ap (λ o. tick_in slab k o) missing)
      ];
      spacing_eq = refl;
    })
  ]
