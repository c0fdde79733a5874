-- ===== src/TickSlab/Keyed.antt =====
-- About the table of keys: every key of the bitmap has a page of its own, and what the writes of pages
-- do to that.
use mathlib.Core.List.{List, [], ◌∷◌}
use rm_uniswap.Prelude.{
  ℕ, zero, suc, ◌/◌, ◌%◌, ◌≤◌, ◌<◌, ◌≡◌, refl, sym, ap, ◌∙◌, arith, true, false, not, lt→ltb, ◌==◌,
  ==_iff, Bool-cases, inl, inr, Option, some, none, if◌then◌else◌, if_true, if_false,
}
use rm_uniswap.Bitmap.{HierBitmap, set_word, set, remove}
use rm_uniswap.Bitmap.Keys.{contains_lem}
use rm_uniswap.Bitmap.Update.{set-Updates, remove-Updates}
use rm_uniswap.Bitmap.Well.{IsWell, present, length}
use rm_uniswap.TickPage.{TickSlabValue}
use rm_uniswap.TickSlab.{get_elem?, allocated}
use rm_uniswap.Word.Digits.{digit_le}
use rm_uniswap.Bitmap.{word_at}

abbrev pub mapped : (TickSlabValue → TickSlabValue) → Option TickSlabValue → Option TickSlabValue
mapped f none = none
mapped f (some p) = some (f p)

-- The number of pages in the table.
unfoldable pub pages_of : List ℕ → ℕ
pages_of [] = 0
pages_of (k ∷ ks) = if k == 65535 then pages_of ks else suc (pages_of ks)

pub pages_of-le : (ks : List ℕ) → pages_of ks ≤ length ks
unfolding pages_of length
pages_of-le [] = omega arith
pages_of-le (k ∷ ks) = elim (Bool-cases (k == 65535)) [
  | inl e ↦ rw e (omega (arith, pages_of-le ks))
  | inr e ↦ rw e (omega (arith, pages_of-le ks))
]

pub pages_of-lt :
    (ks : List ℕ) (c : ℕ)
    → c < length ks
    → allocated (get_elem? ks c) ≡ none
    → pages_of ks < length ks
unfolding pages_of length get_elem?
pages_of-lt [] c l e = absurd (omega arith)
pages_of-lt (k ∷ ks) zero l e = elim (Bool-cases (k == 65535)) [
  | inl same ↦ rw same (omega (arith, pages_of-le ks))
  | inr other ↦ cc (rw other at e)
]
pages_of-lt (k ∷ ks) (suc c) l e = elim (Bool-cases (k == 65535)) [
  | inl same ↦ rw same (omega (arith, pages_of-le ks))
  | inr other ↦ rw other (omega (arith, pages_of-lt ks c (omega arith) e))
]

pub pages_of-added :
    (ks : List ℕ) (c v : ℕ)
    → c < length ks
    → allocated (get_elem? ks c) ≡ none
    → v < 65535
    → pages_of (set_word ks c v) ≡ suc (pages_of ks)
unfolding pages_of length get_elem? set_word
pages_of-added [] c v l e h = absurd (omega arith)
pages_of-added (k ∷ ks) zero v l e h = elim (Bool-cases (k == 65535)) [
  | inl same ↦ let o : (v == 65535) ≡ false = ground arith in rw (same, o) refl
  | inr other ↦ cc (rw other at e)
]
pages_of-added (k ∷ ks) (suc c) v l e h = elim (Bool-cases (k == 65535)) [
  | inl same ↦ rw same (pages_of-added ks c v (omega arith) e h)
  | inr other ↦ rw other (ap (λ n. suc n) (pages_of-added ks c v (omega arith) e h))
]

pub pages_of-freed :
    (ks : List ℕ) (c v : ℕ)
    → allocated (get_elem? ks c) ≡ some v
    → suc (pages_of (set_word ks c 65535)) ≡ pages_of ks
unfolding pages_of get_elem? set_word
pages_of-freed [] c v e = cc e
pages_of-freed (k ∷ ks) zero v e = elim (Bool-cases (k == 65535)) [
  | inl same ↦ cc (rw same at e)
  | inr other ↦ rw other refl
]
pages_of-freed (k ∷ ks) (suc c) v e = elim (Bool-cases (k == 65535)) [
  | inl same ↦ rw same (pages_of-freed ks c v e)
  | inr other ↦ rw other (ap (λ n. suc n) (pages_of-freed ks c v e))
]

pub get_elem?-set_word :
    (ks : List ℕ) (c v d : ℕ)
    → c < length ks
    → get_elem? (set_word ks c v) d ≡ (if d == c then some v else get_elem? ks d)
unfolding get_elem? set_word length
get_elem?-set_word [] c v d l = absurd (omega arith)
get_elem?-set_word (k ∷ ks) zero v zero l = refl
get_elem?-set_word (k ∷ ks) zero v (suc d) l =
    let o : (suc d == 0) ≡ false = ground arith in rw o refl
get_elem?-set_word (k ∷ ks) (suc c) v zero l =
    let o : (0 == suc c) ≡ false = ground arith in rw o refl
get_elem?-set_word (k ∷ ks) (suc c) v (suc d) l = elim (Bool-cases (d == c)) [
  | inl same ↦
      let o : (suc d == suc c) ≡ true = ground arith in
      rw o (get_elem?-set_word ks c v d (omega arith) ∙ if_true _ _ _ same)
  | inr other ↦
      let o : (suc d == suc c) ≡ false = ground arith in
      rw o (get_elem?-set_word ks c v d (omega arith) ∙ if_false _ _ _ other)
]

pub get_elem?-beyond : (ks : List ℕ) (c : ℕ) → length ks ≤ c → get_elem? ks c ≡ none
unfolding get_elem? length
get_elem?-beyond [] c l = refl
get_elem?-beyond (k ∷ ks) zero l = absurd (omega arith)
get_elem?-beyond (k ∷ ks) (suc c) l = get_elem?-beyond ks c (omega arith)

-- The keys of the bitmap after `set` and `remove`.
same_digit : (x y : ℕ) → x ≤ 1 → y ≤ 1 → not (x == 0) ≡ not (y == 0) → x ≡ y
same_digit x y h k e = ground arith

module _ (b : HierBitmap) (h : IsWell b) (c : ℕ) where
  present_le : (m : ℕ) → present b m ≤ 1
  present_le m = digit_le (word_at b.layer0 (m / 64)) (m % 64)

  pub present-set_same : c < b.cap → present ((set b c).0) c ≡ 1
  present-set_same l =
      let u = set-Updates b h c in
      let at : (c == c) ≡ true = (==_iff c c).1 refl in
      let on : not (present ((set b c).0) c == 0) ≡ true =
        sym (contains_lem ((set b c).0) c u.well) ∙ u.keys c ∙ rw (at, lt→ltb c b.cap l) refl in
      let le = digit_le (word_at (set b c).0.layer0 (c / 64)) (c % 64) in ground arith

  pub present-set_other : (m : ℕ) → (m == c) ≡ false → present ((set b c).0) m ≡ present b m
  present-set_other m far =
      let u = set-Updates b h c in
      same_digit (present ((set b c).0) m) (present b m)
        (digit_le (word_at (set b c).0.layer0 (m / 64)) (m % 64)) (present_le m)
        (sym (contains_lem ((set b c).0) m u.well) ∙ u.keys m ∙ rw far (contains_lem b m h))

  pub present-remove_same : c < b.cap → present ((remove b c).0) c ≡ 0
  present-remove_same l =
      let u = remove-Updates b h c in
      let at : (c == c) ≡ true = (==_iff c c).1 refl in
      let off : not (present ((remove b c).0) c == 0) ≡ false =
        sym (contains_lem ((remove b c).0) c u.well) ∙ u.keys c ∙ rw (at, lt→ltb c b.cap l) refl in
      ground arith

  pub present-remove_other : (m : ℕ) → (m == c) ≡ false → present ((remove b c).0) m ≡ present b m
  present-remove_other m far =
      let u = remove-Updates b h c in
      same_digit (present ((remove b c).0) m) (present b m)
        (digit_le (word_at (remove b c).0.layer0 (m / 64)) (m % 64)) (present_le m)
        (sym (contains_lem ((remove b c).0) m u.well) ∙ u.keys m ∙ rw far (contains_lem b m h))
