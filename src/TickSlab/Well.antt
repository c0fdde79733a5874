-- ===== src/TickSlab/Well.antt =====
-- The invariant of a slab, and that the linking of a page and its unlinking keep the links in order.
use rm_uniswap.Prelude.{
  ℕ, ◌+◌, ◌/◌, ◌%◌, ◌^◌, ◌<◌, ◌≡◌, refl, sym, ap, ◌∙◌, arith, true, false, Bool, ◌==◌, ==_iff,
  Bool-cases, inl, inr, lt_or_ge, Option, some, none, if◌then◌else◌,
}
use rm_uniswap.Bitmap.{HierBitmap}
use rm_uniswap.Bitmap.Search.{IsNext}
use rm_uniswap.Bitmap.SearchDown.{IsBelow}
use rm_uniswap.Bitmap.Well.{present}
use rm_uniswap.TickPage.{TickSlabValue, get, is_initialized, set_prev_idx, set_next_idx}
use rm_uniswap.TickSlab.{Slab, TickSlab, get_key, get_slab, modify, tick_in}
use rm_uniswap.TickSlab.Crate.{SlabLaws}
use rm_uniswap.TickSlab.Links.{names}
use rm_uniswap.TickSlab.Pages.{Keyed, absent_page, modify-Written, mapped_if}
use rm_uniswap.Word.Digits.{digit_le}
use rm_uniswap.Bitmap.{word_at}

-- A page with a map of 32 bits, linked to the nearest pages.
pub record IsLinked (b : HierBitmap) (c : ℕ) (p : TickSlabValue) : Type 0 where
  pub word : p.initialized_map < 2 ^ 32
  pub before : IsBelow b c p.prev_idx
  pub after : IsNext b (c + 1) p.next_idx

module _ (slab : Slab) (laws : SlabLaws slab) where
  pub record Linked (t : TickSlab slab) : Type 0 where
    pub keyed : Keyed slab laws t
    pub linked : (c : ℕ) (p : TickSlabValue) → get_slab slab t c ≡ some p → IsLinked t.bitmap c p

  -- Every page has a tick.
  pub record IsSlab (t : TickSlab slab) : Type 0 where
    pub in_order : Linked t
    pub full : (c : ℕ) (p : TickSlabValue) → get_slab slab t c ≡ some p → 0 < p.initialized_map

  pub same_key :
      (t t' : TickSlab slab) → t'.cache ≡ t.cache → (c : ℕ) → get_key slab t' c ≡ get_key slab t c
  unfolding get_key
  same_key t t' e c = rw e refl

  -- A page that is there is present.
  pub there-present :
      (t : TickSlab slab)
      → Keyed slab laws t
      → (c : ℕ) (p : TickSlabValue) → get_slab slab t c ≡ some p
      → present t.bitmap c ≡ 1
  there-present t h c p e = elim (lt_or_ge (present t.bitmap c) 1) [
    | inr g ↦ omega (arith, digit_le (word_at t.bitmap.layer0 (c / 64)) (c % 64))
    | inl l ↦ let z : present t.bitmap c ≡ 0 = omega arith in cc (absent_page slab laws t h c z, e)
  ]

  -- A mapped page comes from a page.
  pub mapped_if-some :
      (b : Bool) (f : TickSlabValue → TickSlabValue) (o : Option TickSlabValue) (q : TickSlabValue)
      → mapped_if b f o ≡ some q
      → (p : TickSlabValue) × (o ≡ some p) × (q ≡ (if b then f p else p))
  mapped_if-some true f none q e = cc e
  mapped_if-some true f (some p) q e = (p, refl, cc e)
  mapped_if-some false f none q e = cc e
  mapped_if-some false f (some p) q e = (p, refl, cc e)

  module _ (t : TickSlab slab) (h : Linked t) (c : ℕ) where
    -- A write that keeps the links of the page.
    pub modify-Linked :
        (f : TickSlabValue → TickSlabValue)
        → ((p : TickSlabValue) → IsLinked t.bitmap c p → IsLinked t.bitmap c (f p))
        → Linked (modify slab t c f)
    modify-Linked f keep =
        let w = modify-Written slab laws t h.keyed c f in
        record {
          keyed = w.still;
          linked = λ d q e.
              let (p, there, q_eq) =
                mapped_if-some (d == c) f (get_slab slab t d) q (sym (w.pages d) ∙ e) in
              rw (w.bitmap_eq, q_eq)
                (elim (Bool-cases (d == c)) [
                  | inl same ↦
                      let i = (==_iff d c).0 same in
                      let linked : IsLinked t.bitmap c p =
                        h.linked c p (sym (ap (λ k. get_slab slab t k) i) ∙ there) in
                      rw (same, i) (keep p linked)
                  | inr other ↦ rw other (h.linked d p there)
                ]);
        }

-- A page whose links are changed in one way or the other.
pub record Relinked (n r : Bool) (v w : Option ℕ) (o : Option TickSlabValue) (q : TickSlabValue)
    : Type 0 where
  pub page : TickSlabValue
  pub was : o ≡ some page
  pub map_eq : q.initialized_map ≡ page.initialized_map
  pub prev_eq : q.prev_idx ≡ (if n then v else page.prev_idx)
  pub next_eq : q.next_idx ≡ (if r then w else page.next_idx)

abbrev pub relinked :
    Bool → Bool → Option ℕ → Option ℕ → Option TickSlabValue → Option TickSlabValue
relinked n r v w o = mapped_if n (λ q. set_prev_idx q v) (mapped_if r (λ q. set_next_idx q w) o)

Relinked-to :
    (n r : Bool) (v w : Option ℕ) (p q : TickSlabValue)
    → q.initialized_map ≡ p.initialized_map
    → q.prev_idx ≡ (if n then v else p.prev_idx)
    → q.next_idx ≡ (if r then w else p.next_idx)
    → Relinked n r v w (some p) q
Relinked-to n r v w p q a b c = record {
  page = p;
  was = refl;
  map_eq = a;
  prev_eq = b;
  next_eq = c;
}

pub relinked-Relinked :
    (n r : Bool) (v w : Option ℕ) (o : Option TickSlabValue) (q : TickSlabValue)
    → relinked n r v w o ≡ some q
    → Relinked n r v w o q
relinked-Relinked true true v w none q e = cc e
relinked-Relinked true false v w none q e = cc e
relinked-Relinked false true v w none q e = cc e
relinked-Relinked false false v w none q e = cc e
relinked-Relinked true true v w (some p) q e =
    let i : q ≡ set_prev_idx (set_next_idx p w) v = cc e in
    Relinked-to true true v w p q (ap (λ x. x.initialized_map) i) (ap (λ x. x.prev_idx) i)
      (ap (λ x. x.next_idx) i)
relinked-Relinked true false v w (some p) q e =
    let i : q ≡ set_prev_idx p v = cc e in
    Relinked-to true false v w p q (ap (λ x. x.initialized_map) i) (ap (λ x. x.prev_idx) i)
      (ap (λ x. x.next_idx) i)
relinked-Relinked false true v w (some p) q e =
    let i : q ≡ set_next_idx p w = cc e in
    Relinked-to false true v w p q (ap (λ x. x.initialized_map) i) (ap (λ x. x.prev_idx) i)
      (ap (λ x. x.next_idx) i)
relinked-Relinked false false v w (some p) q e =
    let i : q ≡ p = cc e in
    Relinked-to false false v w p q (ap (λ x. x.initialized_map) i) (ap (λ x. x.prev_idx) i)
      (ap (λ x. x.next_idx) i)

-- The order of the two writes does not matter.
pub relinked_comm :
    (n r : Bool) (v w : Option ℕ) (o : Option TickSlabValue)
    → mapped_if r (λ q. set_next_idx q w) (mapped_if n (λ q. set_prev_idx q v) o)
      ≡ relinked n r v w o
relinked_comm true true v w none = refl
relinked_comm true false v w none = refl
relinked_comm false true v w none = refl
relinked_comm false false v w none = refl
relinked_comm true true v w (some p) = refl
relinked_comm true false v w (some p) = refl
relinked_comm false true v w (some p) = refl
relinked_comm false false v w (some p) = refl

pub tick_in-relinked :
    (slab : Slab) (key : ℕ) (n r : Bool) (v w : Option ℕ) (o : Option TickSlabValue)
    → tick_in slab key (relinked n r v w o) ≡ tick_in slab key o
unfolding get is_initialized
tick_in-relinked slab key true true v w none = refl
tick_in-relinked slab key true false v w none = refl
tick_in-relinked slab key false true v w none = refl
tick_in-relinked slab key false false v w none = refl
tick_in-relinked slab key true true v w (some p) = refl
tick_in-relinked slab key true false v w (some p) = refl
tick_in-relinked slab key false true v w (some p) = refl
tick_in-relinked slab key false false v w (some p) = refl

pub names-true : (o : Option ℕ) (d : ℕ) → names o d ≡ true → o ≡ some d
names-true none d e = cc e
names-true (some c) d e = let i = (==_iff d c).0 e in cc i

-- A relinked page is in order where both of its links are.
pub IsLinked-Relinked :
    (b : HierBitmap) (d : ℕ) (n r : Bool) (v w : Option ℕ) (o : Option TickSlabValue)
    (q : TickSlabValue)
    → (k : Relinked n r v w o q) → k.page.initialized_map < 2 ^ 32
    → (n ≡ true → IsBelow b d v)
    → (n ≡ false → IsBelow b d k.page.prev_idx)
    → (r ≡ true → IsNext b (d + 1) w)
    → (r ≡ false → IsNext b (d + 1) k.page.next_idx)
    → IsLinked b d q
IsLinked-Relinked b d n r v w o q k word bt bf at af = record {
  word = omega (arith, k.map_eq);
  before = rw (k.prev_eq) (elim (Bool-cases n) [ inl y ↦ rw y (bt y) | inr z ↦ rw z (bf z) ]);
  after = rw (k.next_eq) (elim (Bool-cases r) [ inl y ↦ rw y (at y) | inr z ↦ rw z (af z) ]);
}
