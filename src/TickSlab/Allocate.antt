-- ===== src/TickSlab/Allocate.antt =====
-- About a page that comes into the table, and one that leaves it.
use rm_uniswap.Prelude.{
  ℕ, suc, ◌%◌, ◌^◌, ◌<◌, ◌≡◌, refl, sym, ap, ◌∙◌, arith, true, false, ◌==◌, ==_iff, Bool-cases,
  Option-cases, inl, inr, lt_or_ge, some, none, if◌then◌else◌, if_true, if_false,
}
use native.Mathlib.Nat.{mod-eq_of_lt}
use rm_uniswap.Bitmap.{HierBitmap, set_word, set}
use rm_uniswap.Bitmap
use rm_uniswap.Bitmap.Rewrite.{length-set_word}
use rm_uniswap.Bitmap.Update.{set-Updates, remove-Updates}
use rm_uniswap.Bitmap.Well.{present, length}
use rm_uniswap.TickPage.{TickSlabValue}
use rm_uniswap.TickSlab.{Slab, TickSlab, get_key, get_slab, store_page, free_page, remove_slab}
use rm_uniswap.TickSlab.Crate.{SlabLaws}
use rm_uniswap.TickSlab.Keyed.{
  pages_of-lt, pages_of-added, pages_of-freed, get_elem?-set_word, get_elem?-beyond,
  present-set_same, present-set_other, present-remove_same, present-remove_other,
}
use rm_uniswap.TickSlab.Pages.{Keyed}

module _ (slab : Slab) (laws : SlabLaws slab) (t : TickSlab slab) (h : Keyed slab laws t) where
  -- A key of the table is in range.
  pub key_in : (c k : ℕ) → get_key slab t c ≡ some k → c < length t.cache
  unfolding get_key
  key_in c k e = elim (lt_or_ge c (length t.cache)) [
    | inl l ↦ l
    | inr g ↦ cc (rw (get_elem?-beyond t.cache c g) at e)
  ]

  module _ (c : ℕ) (within : c < length t.cache) where
    in_cap : c < t.bitmap.cap
    in_cap = rw h.cap_eq within

    pub record Stored (t' : TickSlab slab) (page : TickSlabValue) : Type 0 where
      pub still : Keyed slab laws t'
      pub pages : (d : ℕ) → get_slab slab t' d ≡ (if d == c then some page else get_slab slab t d)

    module _ (absent : get_key slab t c ≡ none) (page : TickSlabValue) where
      abbrev r : slab.Values × ℕ
      r = slab.insert t.values page

      abbrev t' : TickSlab slab
      t' = store_page slab t c r

      room : slab.len t.values < 65535
      unfolding get_key
      room = omega (arith, h.len_eq, pages_of-lt t.cache c within absent, h.cap_eq, h.well.cap_fits)

      small : r.1 < 65535
      small = laws.insert_key t.values page h.fits room

      cast : r.1 % 2 ^ 16 ≡ r.1
      cast = mod-eq_of_lt (omega (arith, small))

      key_after : (d : ℕ) → get_key slab t' d ≡ (if d == c then some (r.1) else get_key slab t d)
      unfolding get_key
      key_after d =
          rw (cast, get_elem?-set_word t.cache c (r.1) d within)
            (elim (Bool-cases (d == c)) [
              | inr other ↦ rw other refl
              | inl same ↦
                  let o : (r.1 == 65535) ≡ false = ground (arith, small) in rw (same, o) refl
            ])

      -- No page has the new key yet.
      fresh : (d k : ℕ) → get_key slab t d ≡ some k → (k == r.1) ≡ false
      fresh d k e = elim (Bool-cases (k == r.1)) [
        | inr far ↦ far
        | inl same ↦
            let (p, there) = h.stored d k e in
            let q = (==_iff k (r.1)).0 same in
            cc (laws.insert_fresh t.values page, sym (ap (λ i. slab.get t.values i) q) ∙ there)
      ]

      slab_after : (d : ℕ) → get_slab slab t' d ≡ (if d == c then some page else get_slab slab t d)
      unfolding get_slab
      slab_after d = elim (Bool-cases (d == c)) [
        | inl same ↦
            let key : get_key slab t' d ≡ some (r.1) = key_after d ∙ if_true _ _ _ same in
            let at = laws.insert_get t.values page (r.1) in
            rw (key, same) (at ∙ if_true _ _ _ ((==_iff (r.1) (r.1)).1 refl))
        | inr other ↦ elim (Option-cases (get_key slab t d)) [
          | inl missing ↦
              let key : get_key slab t' d ≡ none = key_after d ∙ if_false _ _ _ other ∙ missing in
              rw (key, other, missing) refl
          | inr (k, old) ↦
              let key : get_key slab t' d ≡ some k = key_after d ∙ if_false _ _ _ other ∙ old in
              rw (key, other, old)
                (laws.insert_get t.values page k ∙ if_false _ _ _ (fresh d k old))
        ]
      ]

      old_key :
          (d k : ℕ) → (d == c) ≡ false → get_key slab t' d ≡ some k → get_key slab t d ≡ some k
      old_key d k other e = sym (if_false _ _ _ other) ∙ sym (key_after d) ∙ e

      new_key : (d k : ℕ) → (d == c) ≡ true → get_key slab t' d ≡ some k → k ≡ r.1
      new_key d k same e =
          let q : some (r.1) ≡ some k = sym (if_true _ _ _ same) ∙ sym (key_after d) ∙ e in cc q

      pub store_page-Stored : Stored (store_page slab t c (slab.insert t.values page)) page
      unfolding get_key
      store_page-Stored = record {
        still = record {
          well = (set-Updates t.bitmap h.well c).well;
          cap_eq =
              (set-Updates t.bitmap h.well c).cap_eq
              ∙ h.cap_eq
              ∙ sym (length-set_word t.cache c (r.1 % 2 ^ 16));
          fits = laws.insert_fits t.values page h.fits room;
          len_eq =
              laws.insert_len t.values page
              ∙ ap (λ n. suc n) h.len_eq
              ∙ rw cast (sym (pages_of-added t.cache c (r.1) within absent small));
          stored = λ d k e. elim (Bool-cases (d == c)) [
            | inl same ↦
                let q = new_key d k same e in
                (page, laws.insert_get t.values page k ∙ if_true _ _ _ ((==_iff k (r.1)).1 q))
            | inr other ↦
                let old = old_key d k other e in
                let (p, there) = h.stored d k old in
                (p, laws.insert_get t.values page k ∙ if_false _ _ _ (fresh d k old) ∙ there)
          ];
          injective = λ d e k kd ke. elim (Bool-cases (d == c)) [
            | inl same ↦ elim (Bool-cases (e == c)) [
              | inl same' ↦ (==_iff d c).0 same ∙ sym ((==_iff e c).0 same')
              | inr other ↦
                  let q = (==_iff k (r.1)).1 (new_key d k same kd) in
                  cc (q, fresh e k (old_key e k other ke))
            ]
            | inr other ↦ elim (Bool-cases (e == c)) [
              | inl same' ↦
                  let q = (==_iff k (r.1)).1 (new_key e k same' ke) in
                  cc (q, fresh d k (old_key d k other kd))
              | inr other' ↦ h.injective d e k (old_key d k other kd) (old_key e k other' ke)
            ]
          ];
          keyed = λ d e. elim (Bool-cases (d == c)) [
            | inl same ↦ (r.1, key_after d ∙ if_true _ _ _ same)
            | inr other ↦
                let (k, old) = h.keyed d (sym (present-set_other t.bitmap h.well c d other) ∙ e) in
                (k, key_after d ∙ if_false _ _ _ other ∙ old)
          ];
          unkeyed = λ d e. elim (Bool-cases (d == c)) [
            | inl same ↦
                let q = (==_iff d c).0 same in
                let one = present-set_same t.bitmap h.well c in_cap in
                let zero = sym (ap (λ i. present ((set t.bitmap c).0) i) q) ∙ e in
                absurd (omega arith)
            | inr other ↦
                key_after d
                ∙ if_false _ _ _ other
                ∙ h.unkeyed d (sym (present-set_other t.bitmap h.well c d other) ∙ e)
          ];
        };
        pages = slab_after;
      }

    pub record Freed (t' : TickSlab slab) : Type 0 where
      pub still : Keyed slab laws t'
      pub bitmap_eq : t'.bitmap ≡ (Bitmap.remove t.bitmap c).0
      pub spacing_eq : t'.tick_spacing ≡ t.tick_spacing
      pub pages : (d : ℕ) → get_slab slab t' d ≡ (if d == c then none else get_slab slab t d)

    module _ (key : ℕ) (has : get_key slab t c ≡ some key) where
      abbrev u : TickSlab slab
      u = free_page slab t c (some key)

      freed_after : (d : ℕ) → get_key slab u d ≡ (if d == c then none else get_key slab t d)
      unfolding get_key
      freed_after d =
          rw (get_elem?-set_word t.cache c 65535 d within)
            (elim (Bool-cases (d == c)) [ inr other ↦ rw other refl | inl same ↦ rw same refl ])

      differs : (d k : ℕ) → (d == c) ≡ false → get_key slab t d ≡ some k → (k == key) ≡ false
      differs d k other e = elim (Bool-cases (k == key)) [
        | inr far ↦ far
        | inl same ↦
            let eq = h.injective d c key (e ∙ ap (λ i. some i) ((==_iff k key).0 same)) has in
            cc ((==_iff d c).1 eq, other)
      ]

      kept_key :
          (d k : ℕ) → get_key slab u d ≡ some k → ((d == c) ≡ false) × (get_key slab t d ≡ some k)
      kept_key d k e = elim (Bool-cases (d == c)) [
        | inl same ↦ cc (sym (if_true _ _ _ same) ∙ sym (freed_after d) ∙ e)
        | inr other ↦ (other, sym (if_false _ _ _ other) ∙ sym (freed_after d) ∙ e)
      ]

      freed_slab : (d : ℕ) → get_slab slab u d ≡ (if d == c then none else get_slab slab t d)
      unfolding get_slab
      freed_slab d = elim (Bool-cases (d == c)) [
        | inl same ↦
            let gone : get_key slab u d ≡ none = freed_after d ∙ if_true _ _ _ same in
            rw (gone, same) refl
        | inr other ↦ elim (Option-cases (get_key slab t d)) [
          | inl missing ↦
              let gone : get_key slab u d ≡ none = freed_after d ∙ if_false _ _ _ other ∙ missing in
              rw (gone, other, missing) refl
          | inr (k, old) ↦
              let now : get_key slab u d ≡ some k = freed_after d ∙ if_false _ _ _ other ∙ old in
              rw (now, other, old)
                (laws.remove_get t.values key k ∙ if_false _ _ _ (differs d k other old))
        ]
      ]

      pub remove_slab-Freed : Freed (remove_slab slab t c)
      unfolding get_key remove_slab
      remove_slab-Freed =
          let (q, there) = h.stored c key has in
          rw has (record {
            still = record {
              well = (remove-Updates t.bitmap h.well c).well;
              cap_eq =
                  (remove-Updates t.bitmap h.well c).cap_eq
                  ∙ h.cap_eq
                  ∙ sym (length-set_word t.cache c 65535);
              fits = laws.remove_fits t.values key h.fits;
              len_eq =
                  (let a = laws.remove_len t.values key q there in
                    let b = pages_of-freed t.cache c key has in omega (arith, h.len_eq));
              stored = λ d k e.
                  let (other, old) = kept_key d k e in
                  let (p, found) = h.stored d k old in
                  (
                    p,
                    laws.remove_get t.values key k ∙ if_false _ _ _ (differs d k other old) ∙ found,
                  );
              injective =
                  λ d e k kd ke. h.injective d e k ((kept_key d k kd).1) ((kept_key e k ke).1);
              keyed = λ d e. elim (Bool-cases (d == c)) [
                | inl same ↦
                    let i = (==_iff d c).0 same in
                    let zero = present-remove_same t.bitmap h.well c in_cap in
                    let one = sym (ap (λ i. present ((Bitmap.remove t.bitmap c).0) i) i) ∙ e in
                    absurd (omega arith)
                | inr other ↦
                    let (k, old) =
                      h.keyed d (sym (present-remove_other t.bitmap h.well c d other) ∙ e) in
                    (k, freed_after d ∙ if_false _ _ _ other ∙ old)
              ];
              unkeyed = λ d e. elim (Bool-cases (d == c)) [
                | inl same ↦ freed_after d ∙ if_true _ _ _ same
                | inr other ↦
                    freed_after d
                    ∙ if_false _ _ _ other
                    ∙ h.unkeyed d (sym (present-remove_other t.bitmap h.well c d other) ∙ e)
              ];
            };
            bitmap_eq = refl;
            spacing_eq = refl;
            pages = freed_slab;
          })
