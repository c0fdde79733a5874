-- ===== src/TickSlab/Unlink.antt =====
-- That the unlinking of an empty page keeps the links in order.
use rm_uniswap.Prelude.{
  ℕ, ◌+◌, ◌<◌, ◌≡◌, sym, ap, ◌∙◌, false, ◌==◌, Bool-cases, inl, inr, Option, some, none,
  if◌then◌else◌, if_true, if_false,
}
use rm_uniswap.Bitmap.{HierBitmap, set}
use rm_uniswap.Bitmap
use rm_uniswap.Bitmap.Search.{IsNext}
use rm_uniswap.Bitmap.SearchDown.{IsBelow}
use rm_uniswap.Bitmap.Well.{present, length}
use rm_uniswap.TickPage.{TickSlabValue, set_prev_idx, set_next_idx}
use rm_uniswap.TickSlab.{Slab, TickSlab, get_key, get_slab, modify_at, unlink}
use rm_uniswap.TickSlab.Allocate.{Freed, remove_slab-Freed, key_in}
use rm_uniswap.TickSlab.Crate.{SlabLaws}
use rm_uniswap.TickSlab.Keyed.{present-remove_same, present-remove_other}
use rm_uniswap.TickSlab.Links.{names, gone-IsBelow, gone-IsNext, keep-IsBelow, keep-IsNext}
use rm_uniswap.TickSlab.Pages.{WrittenAt, modify_at-WrittenAt, mapped_if, get_slab-some}
use rm_uniswap.Bitmap.{word_at}
use rm_uniswap.TickSlab.Well.{
  IsLinked, Linked, there-present, same_key, relinked, relinked-Relinked, relinked_comm, names-true,
  IsLinked-Relinked,
}

module _ (slab : Slab) (laws : SlabLaws slab) (t : TickSlab slab) (h : Linked slab laws t)
    (c key : ℕ) (has : get_key slab t c ≡ some key) (prev_idx next_idx : Option ℕ)
    (below : IsBelow t.bitmap c prev_idx) (after : IsNext t.bitmap (c + 1) next_idx) where
  abbrev b : HierBitmap
  b = t.bitmap

  -- The page is gone, and its neighbours are linked.
  pub record UnlinkedIn (t' : TickSlab slab) : Type 0 where
    pub still : Linked slab laws t'
    pub pages :
        (d : ℕ)
        → get_slab slab t' d ≡ (
            if d == c
            then none
            else relinked
                (names next_idx d)
                (names prev_idx d)
                prev_idx
                next_idx
                (get_slab slab t d))
    pub spacing_eq : t'.tick_spacing ≡ t.tick_spacing

  abbrev t1 : TickSlab slab
  t1 = modify_at slab t next_idx (λ q. set_prev_idx q prev_idx)

  w1 : WrittenAt slab laws t h.keyed t1 next_idx (λ q. set_prev_idx q prev_idx)
  w1 = modify_at-WrittenAt slab laws t h.keyed next_idx (λ q. set_prev_idx q prev_idx)

  abbrev t2 : TickSlab slab
  t2 = modify_at slab t1 prev_idx (λ q. set_next_idx q next_idx)

  w2 : WrittenAt slab laws t1 w1.still t2 prev_idx (λ q. set_next_idx q next_idx)
  w2 = modify_at-WrittenAt slab laws t1 w1.still prev_idx (λ q. set_next_idx q next_idx)

  cache_eq : t2.cache ≡ t.cache
  cache_eq = w2.cache_eq ∙ w1.cache_eq

  bitmap_eq : t2.bitmap ≡ b
  bitmap_eq = w2.bitmap_eq ∙ w1.bitmap_eq

  has2 : get_key slab t2 c ≡ some key
  has2 = same_key slab laws t t2 cache_eq c ∙ has

  within : c < length t.cache
  within = key_in slab laws t h.keyed c key has

  off : Freed slab laws t2 w2.still c (rw cache_eq within) (unlink slab t c prev_idx next_idx)
  unfolding unlink
  off = remove_slab-Freed slab laws t2 w2.still c (rw cache_eq within) key has2

  pages :
      (d : ℕ)
      → get_slab slab (unlink slab t c prev_idx next_idx) d ≡ (
          if d == c
          then none
          else relinked (names next_idx d) (names prev_idx d) prev_idx next_idx (get_slab slab t d))
  pages d =
      off.pages d
      ∙ ap (λ o. if d == c then none else o)
          (w2.pages d
            ∙ ap (λ o. mapped_if (names prev_idx d) (λ q. set_next_idx q next_idx) o) (w1.pages d)
            ∙ relinked_comm (names next_idx d) (names prev_idx d) prev_idx next_idx
                (get_slab slab t d))

  abbrev b' : HierBitmap
  b' = (Bitmap.remove b c).0

  other : (m : ℕ) → (m == c) ≡ false → present b' m ≡ present b m
  other m f = present-remove_other b h.keyed.well c m f

  was : present b c ≡ 1
  was =
      let (p, there) = h.keyed.stored c key has in
      there-present slab laws t h.keyed c p (get_slab-some slab laws t h.keyed c key has ∙ there)

  gone : present b' c ≡ 0
  gone = present-remove_same b h.keyed.well c (rw h.keyed.cap_eq within)

  at_other :
      (d : ℕ) (q : TickSlabValue)
      → (d == c) ≡ false
      → relinked (names next_idx d) (names prev_idx d) prev_idx next_idx (get_slab slab t d)
        ≡ some q
      → IsLinked b' d q
  at_other d q far e =
      let k =
        relinked-Relinked (names next_idx d) (names prev_idx d) prev_idx next_idx
          (get_slab slab t d) q e in
      let il = h.linked d k.page k.was in
      let here = there-present slab laws t h.keyed d k.page k.was in
      IsLinked-Relinked b' d (names next_idx d) (names prev_idx d) prev_idx next_idx
        (get_slab slab t d) q k il.word
        (λ y.
          gone-IsBelow b b' c other was gone d prev_idx (rw (names-true next_idx d y) at after)
            below)
        (λ z. keep-IsBelow b b' c other was gone d k.page.prev_idx next_idx here z after il.before)
        (λ y.
          gone-IsNext b b' c other was gone d next_idx (rw (names-true prev_idx d y) at below)
            after)
        (λ z. keep-IsNext b b' c other was gone d k.page.next_idx prev_idx here z below il.after)

  pub unlink-UnlinkedIn : UnlinkedIn (unlink slab t c prev_idx next_idx)
  unlink-UnlinkedIn = record {
    still = record {
      keyed = off.still;
      linked = λ d q e.
          let to : (unlink slab t c prev_idx next_idx).bitmap ≡ b' =
            off.bitmap_eq ∙ ap (λ x. (Bitmap.remove x c).0) bitmap_eq in
          rw to (elim (Bool-cases (d == c)) [
            | inl same ↦ (let two = sym (if_true _ _ _ same) ∙ sym (pages d) ∙ e in cc two)
            | inr far ↦ at_other d q far (sym (if_false _ _ _ far) ∙ sym (pages d) ∙ e)
          ]);
    };
    pages = pages;
    spacing_eq = off.spacing_eq ∙ w2.spacing_eq ∙ w1.spacing_eq;
  }
