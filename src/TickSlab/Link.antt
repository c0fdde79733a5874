-- ===== src/TickSlab/Link.antt =====
-- That the linking of a new page keeps the links in order.
use rm_uniswap.Prelude.{
  ℕ, ◌+◌, ◌^◌, ◌<◌, ◌≡◌, refl, sym, ap, ◌∙◌, false, ◌==◌, ==_iff, Bool-cases, inl, inr, Option,
  some, none, if_true, if_false,
}
use rm_uniswap.Bitmap.{HierBitmap, set}
use rm_uniswap.Bitmap
use rm_uniswap.Bitmap.Search.{IsNext}
use rm_uniswap.Bitmap.SearchDown.{IsBelow, searches-AreNearest}
use rm_uniswap.Bitmap.Well.{present, length}
use rm_uniswap.TickPage.{TickSlabValue, set_prev_idx, set_next_idx}
use rm_uniswap.TickSlab.{Slab, TickSlab, get_key, get_slab, modify_at, link_page}
use rm_uniswap.TickSlab.Allocate.{Stored, store_page-Stored}
use rm_uniswap.TickSlab.Crate.{SlabLaws}
use rm_uniswap.TickSlab.Keyed.{present-set_same, present-set_other}
use rm_uniswap.TickSlab.Links.{
  names, IsBelow-same, IsNext-same, come-IsBelow, come-IsNext, stay-IsBelow, stay-IsNext,
}
use rm_uniswap.TickSlab.Pages.{WrittenAt, modify_at-WrittenAt, mapped_if}
use rm_uniswap.Bitmap.{word_at}
use rm_uniswap.TickSlab.Well.{
  IsLinked, Linked, there-present, same_key, relinked, relinked-Relinked, names-true,
  IsLinked-Relinked,
}

module _ (slab : Slab) (laws : SlabLaws slab) where
  module _ (t : TickSlab slab) (h : Linked slab laws t) (c : ℕ) (within : c < length t.cache) where
    abbrev b : HierBitmap
    b = t.bitmap

    abbrev prev_idx : Option ℕ
    prev_idx = Bitmap.prev b c

    abbrev next_idx : Option ℕ
    next_idx = Bitmap.next b c

    before-IsBelow : IsBelow b c prev_idx
    before-IsBelow = (searches-AreNearest b h.keyed.well c).before

    after-IsNext : IsNext b (c + 1) next_idx
    after-IsNext = (searches-AreNearest b h.keyed.well c).after

    -- A new page, between its neighbours.
    pub record LinkedIn (t' : TickSlab slab) (page : TickSlabValue) : Type 0 where
      pub still : Linked slab laws t'
      pub page_there : get_slab slab t' c ≡ some page
      pub others :
          (d : ℕ)
          → (d == c) ≡ false
          → get_slab slab t' d
            ≡ relinked (names next_idx d) (names prev_idx d) (some c) (some c) (get_slab slab t d)
      pub spacing_eq : t'.tick_spacing ≡ t.tick_spacing

    module _ (absent : get_key slab t c ≡ none) (page : TickSlabValue)
        (word : page.initialized_map < 2 ^ 32) where
      abbrev t1 : TickSlab slab
      t1 = modify_at slab t prev_idx (λ q. set_next_idx q (some c))

      w1 : WrittenAt slab laws t h.keyed t1 prev_idx (λ q. set_next_idx q (some c))
      w1 = modify_at-WrittenAt slab laws t h.keyed prev_idx (λ q. set_next_idx q (some c))

      abbrev t2 : TickSlab slab
      t2 = modify_at slab t1 next_idx (λ q. set_prev_idx q (some c))

      w2 : WrittenAt slab laws t1 w1.still t2 next_idx (λ q. set_prev_idx q (some c))
      w2 = modify_at-WrittenAt slab laws t1 w1.still next_idx (λ q. set_prev_idx q (some c))

      cache_eq : t2.cache ≡ t.cache
      cache_eq = w2.cache_eq ∙ w1.cache_eq

      bitmap_eq : t2.bitmap ≡ b
      bitmap_eq = w2.bitmap_eq ∙ w1.bitmap_eq

      absent2 : get_key slab t2 c ≡ none
      absent2 = same_key slab laws t t2 cache_eq c ∙ absent

      abbrev linked_page : TickSlabValue
      linked_page = set_next_idx (set_prev_idx page prev_idx) next_idx

      stored :
          Stored slab laws t2 w2.still c (rw cache_eq within) (link_page slab t c page) linked_page
      unfolding link_page
      stored = store_page-Stored slab laws t2 w2.still c (rw cache_eq within) absent2 linked_page

      pages :
          (d : ℕ)
          → (d == c) ≡ false
          → get_slab slab (link_page slab t c page) d
            ≡ relinked (names next_idx d) (names prev_idx d) (some c) (some c) (get_slab slab t d)
      pages d other =
          stored.pages d
          ∙ if_false _ _ _ other
          ∙ w2.pages d
          ∙ ap (λ o. mapped_if (names next_idx d) (λ q. set_prev_idx q (some c)) o) (w1.pages d)

      abbrev b' : HierBitmap
      b' = (set b c).0

      other : (m : ℕ) → (m == c) ≡ false → present b' m ≡ present b m
      other m f = present-set_other b h.keyed.well c m f

      now : present b' c ≡ 1
      now = present-set_same b h.keyed.well c (rw h.keyed.cap_eq within)

      at_page : IsLinked b' c linked_page
      at_page = record {
        word = word;
        before = IsBelow-same b b' c other prev_idx before-IsBelow;
        after = IsNext-same b b' c other next_idx after-IsNext;
      }

      at_other :
          (d : ℕ) (q : TickSlabValue)
          → (d == c) ≡ false
          → relinked (names next_idx d) (names prev_idx d) (some c) (some c) (get_slab slab t d)
            ≡ some q
          → IsLinked b' d q
      at_other d q far e =
          let k =
            relinked-Relinked (names next_idx d) (names prev_idx d) (some c) (some c)
              (get_slab slab t d) q e in
          let il = h.linked d k.page k.was in
          let here = there-present slab laws t h.keyed d k.page k.was in
          IsLinked-Relinked b' d (names next_idx d) (names prev_idx d) (some c) (some c)
            (get_slab slab t d) q k il.word
            (λ y. come-IsBelow b b' c other now d (rw (names-true next_idx d y) at after-IsNext))
            (λ z.
              stay-IsBelow b b' c other now d k.page.prev_idx next_idx here far z after-IsNext
                il.before)
            (λ y. come-IsNext b b' c other now d (rw (names-true prev_idx d y) at before-IsBelow))
            (λ z.
              stay-IsNext b b' c other now d k.page.next_idx prev_idx here far z before-IsBelow
                il.after)

      pub link_page-LinkedIn : LinkedIn (link_page slab t c page) linked_page
      unfolding link_page
      link_page-LinkedIn =
          let there : get_slab slab (link_page slab t c page) c ≡ some linked_page =
            stored.pages c ∙ if_true _ _ _ ((==_iff c c).1 refl) in
          record {
            still = record {
              keyed = stored.still;
              linked = λ d q e. rw bitmap_eq (elim (Bool-cases (d == c)) [
                | inl same ↦
                    let i = (==_iff d c).0 same in
                    let j : q ≡ linked_page =
                      (let two =
                          sym e ∙ ap (λ x. get_slab slab (link_page slab t c page) x) i ∙ there in
                        cc two) in
                    rw (j, i) at_page
                | inr far ↦ at_other d q far (sym (pages d far) ∙ e)
              ]);
            };
            page_there = there;
            others = pages;
            spacing_eq = w2.spacing_eq ∙ w1.spacing_eq;
          }
