-- ===== src/TickSlab/Pages.antt =====
-- About the pages of a slab: each write changes the page that it names, and keeps the table in order.
use rm_uniswap.Prelude.{
  ℕ, ◌≡◌, refl, sym, ap, ◌∙◌, false, Bool, ◌==◌, ==_iff, Bool-cases, Option-cases, inl, inr, Option,
  some, none, if◌then◌else◌, if_true, if_false,
}
use rm_uniswap.Bitmap.Well.{IsWell, present, length}
use rm_uniswap.TickPage.{TickSlabValue}
use rm_uniswap.TickSlab.{Slab, TickSlab, get_key, get_slab, modify, modify_at}
use rm_uniswap.TickSlab.Crate.{SlabLaws}
use rm_uniswap.TickSlab.Keyed.{mapped, pages_of}
use rm_uniswap.TickSlab.Links.{names}

-- `mapped` at the pages that a test names.
abbrev pub mapped_if :
    Bool → (TickSlabValue → TickSlabValue) → Option TickSlabValue → Option TickSlabValue
mapped_if b f p = if b then mapped f p else p

module _ (slab : Slab) (laws : SlabLaws slab) where
  -- The table and the bitmap name the same pages, each under a key of its own.
  pub record Keyed (t : TickSlab slab) : Type 0 where
    pub well : IsWell t.bitmap
    pub cap_eq : t.bitmap.cap ≡ length t.cache
    pub fits : laws.Fits t.values
    pub len_eq : slab.len t.values ≡ pages_of t.cache
    pub stored :
        (c k : ℕ) → get_key slab t c ≡ some k → (p : TickSlabValue) × (slab.get t.values k ≡ some p)
    pub injective : (c d k : ℕ) → get_key slab t c ≡ some k → get_key slab t d ≡ some k → c ≡ d
    pub keyed : (c : ℕ) → present t.bitmap c ≡ 1 → (k : ℕ) × (get_key slab t c ≡ some k)
    pub unkeyed : (c : ℕ) → present t.bitmap c ≡ 0 → get_key slab t c ≡ none

  module _ (t : TickSlab slab) (h : Keyed t) where
    pub get_slab-none : (c : ℕ) → get_key slab t c ≡ none → get_slab slab t c ≡ none
    unfolding get_slab
    get_slab-none c e = rw e refl

    pub get_slab-some :
        (c k : ℕ) → get_key slab t c ≡ some k → get_slab slab t c ≡ slab.get t.values k
    unfolding get_slab
    get_slab-some c k e = rw e refl

    -- A page is there where its key is present.
    pub page_of :
        (c : ℕ) → present t.bitmap c ≡ 1 → (p : TickSlabValue) × (get_slab slab t c ≡ some p)
    page_of c e =
        let (k, key) = h.keyed c e in
        let (p, there) = h.stored c k key in (p, get_slab-some c k key ∙ there)

    pub absent_page : (c : ℕ) → present t.bitmap c ≡ 0 → get_slab slab t c ≡ none
    absent_page c e = get_slab-none c (h.unkeyed c e)

    -- What a write of a page leaves.
    pub record Written (t' : TickSlab slab) (c : ℕ) (f : TickSlabValue → TickSlabValue)
        : Type 0 where
      pub still : Keyed t'
      pub bitmap_eq : t'.bitmap ≡ t.bitmap
      pub cache_eq : t'.cache ≡ t.cache
      pub spacing_eq : t'.tick_spacing ≡ t.tick_spacing
      pub pages : (d : ℕ) → get_slab slab t' d ≡ mapped_if (d == c) f (get_slab slab t d)

    abbrev with_value : ℕ → TickSlabValue → TickSlab slab
    with_value k q = record t { values = slab.set t.values k q }

    Written-at :
        (c k : ℕ) (p : TickSlabValue) (f : TickSlabValue → TickSlabValue)
        → get_key slab t c ≡ some k
        → slab.get t.values k ≡ some p
        → Written (with_value k (f p)) c f
    unfolding get_key get_slab
    Written-at c k p f e there =
        let at = λ (j : ℕ). laws.set_get t.values k j (f p) p there in
        record {
          still = record {
            well = h.well;
            cap_eq = h.cap_eq;
            fits = laws.set_fits t.values k (f p) h.fits;
            len_eq = laws.set_len t.values k (f p) ∙ h.len_eq;
            stored = λ d j g. elim (Bool-cases (j == k)) [
              | inl same ↦ (f p, at j ∙ if_true _ _ _ same)
              | inr other ↦
                  let (q, found) = h.stored d j g in (q, at j ∙ if_false _ _ _ other ∙ found)
            ];
            injective = h.injective;
            keyed = h.keyed;
            unkeyed = h.unkeyed;
          };
          bitmap_eq = refl;
          cache_eq = refl;
          spacing_eq = refl;
          pages = λ d. elim (Option-cases (get_key slab t d)) [
            | inl missing ↦ elim (Bool-cases (d == c)) [
              | inl same ↦ rw (missing, same) refl
              | inr other ↦ rw (missing, other) refl
            ]
            | inr (j, key) ↦ elim (Bool-cases (d == c)) [
              | inl same ↦
                  let q = (==_iff d c).0 same in
                  let jk : j ≡ k = cc (key, e, q) in
                  rw (key, same)
                    (at j
                      ∙ if_true _ _ _ ((==_iff j k).1 jk)
                      ∙ sym (ap (λ o. mapped f o) (ap (λ i. slab.get t.values i) jk ∙ there)))
              | inr other ↦
                  let jk : (j == k) ≡ false = elim (Bool-cases (j == k)) [
                    | inr far ↦ far
                    | inl near ↦
                        let eq : d ≡ c =
                          h.injective d c k (key ∙ ap (λ i. some i) ((==_iff j k).0 near)) e in
                        cc ((==_iff d c).1 eq, other)
                  ] in
                  rw (key, other) (at j ∙ if_false _ _ _ jk)
            ]
          ];
        }

    pub modify-Written :
        (c : ℕ) (f : TickSlabValue → TickSlabValue) → Written (modify slab t c f) c f
    unfolding modify
    modify-Written c f = elim (Option-cases (get_key slab t c)) [
      | inl missing ↦ rw missing (record {
        still = h;
        bitmap_eq = refl;
        cache_eq = refl;
        spacing_eq = refl;
        pages = λ d. elim (Bool-cases (d == c)) [
          | inr other ↦ rw other refl
          | inl same ↦
              let q = (==_iff d c).0 same in
              let gone : get_slab slab t d ≡ none =
                ap (λ i. get_slab slab t i) q ∙ get_slab-none c missing in
              rw (same, gone) refl
        ];
      })
      | inr (k, key) ↦
          let (p, there) = h.stored c k key in rw (key, there) (Written-at c k p f key there)
    ]

    -- The same for a page that a link names.
    pub record WrittenAt (t' : TickSlab slab) (o : Option ℕ) (f : TickSlabValue → TickSlabValue)
        : Type 0 where
      pub still : Keyed t'
      pub bitmap_eq : t'.bitmap ≡ t.bitmap
      pub cache_eq : t'.cache ≡ t.cache
      pub spacing_eq : t'.tick_spacing ≡ t.tick_spacing
      pub pages : (d : ℕ) → get_slab slab t' d ≡ mapped_if (names o d) f (get_slab slab t d)

    pub modify_at-WrittenAt :
        (o : Option ℕ) (f : TickSlabValue → TickSlabValue) → WrittenAt (modify_at slab t o f) o f
    modify_at-WrittenAt none f = record {
      still = h;
      bitmap_eq = refl;
      cache_eq = refl;
      spacing_eq = refl;
      pages = λ d. refl;
    }
    modify_at-WrittenAt (some c) f =
        let w = modify-Written c f in
        record {
          still = w.still;
          bitmap_eq = w.bitmap_eq;
          cache_eq = w.cache_eq;
          spacing_eq = w.spacing_eq;
          pages = w.pages;
        }
