-- ===== src/TickSlab/Sample.antt =====
-- A slab to run examples on: a list of places, where a value takes the first vacant one.
use mathlib.Core.List.{List, [], ◌∷◌}
use rm_uniswap.Prelude.{
  ℕ, zero, suc, ◌≤◌, ◌<◌, ◌≡◌, refl, ap, false, arith, ◌==◌, if◌then◌else◌, Bool-cases, inl, inr,
  Option, some, none,
}
use rm_uniswap.TickPage.{TickSlabValue}
use rm_uniswap.TickSlab.{Slab}
use rm_uniswap.TickSlab.Crate.{SlabLaws}

abbrev pub Places : Type 0
Places = List (Option TickSlabValue)

size : Places → ℕ
size [] = 0
size (v ∷ vs) = suc (size vs)

pub len : Places → ℕ
len [] = 0
len (none ∷ vs) = len vs
len (some q ∷ vs) = suc (len vs)

pub get : Places → ℕ → Option TickSlabValue
get [] k = none
get (v ∷ vs) zero = v
get (v ∷ vs) (suc k) = get vs k

pub set : Places → ℕ → TickSlabValue → Places
set [] k p = []
set (none ∷ vs) zero p = none ∷ vs
set (some q ∷ vs) zero p = some p ∷ vs
set (v ∷ vs) (suc k) p = v ∷ set vs k p

pub place : Places → TickSlabValue → Places × ℕ
place [] p = (some p ∷ [], 0)
place (none ∷ vs) p = (some p ∷ vs, 0)
place (some q ∷ vs) p = let r = place vs p in (some q ∷ r.0, suc (r.1))

pub remove : Places → ℕ → Places
remove [] k = []
remove (v ∷ vs) zero = none ∷ vs
remove (v ∷ vs) (suc k) = v ∷ remove vs k

abbrev pub sample : Slab
sample = record {
  Values = Places;
  new = [];
  len = len;
  get = get;
  set = set;
  insert = place;
  remove = remove;
}

same_suc : (j k : ℕ) → (suc j == suc k) ≡ (j == k)
same_suc j k = ground arith

len-le : (vs : Places) → len vs ≤ size vs
unfolding len size
len-le [] = omega arith
len-le (none ∷ vs) = omega (arith, len-le vs)
len-le (some q ∷ vs) = omega (arith, len-le vs)

size-set : (vs : Places) (k : ℕ) (p : TickSlabValue) → size (set vs k p) ≡ size vs
unfolding size set
size-set [] k p = refl
size-set (none ∷ vs) zero p = refl
size-set (some q ∷ vs) zero p = refl
size-set (none ∷ vs) (suc k) p = ap (λ n. suc n) (size-set vs k p)
size-set (some q ∷ vs) (suc k) p = ap (λ n. suc n) (size-set vs k p)

len-set : (vs : Places) (k : ℕ) (p : TickSlabValue) → len (set vs k p) ≡ len vs
unfolding len set
len-set [] k p = refl
len-set (none ∷ vs) zero p = refl
len-set (some q ∷ vs) zero p = refl
len-set (none ∷ vs) (suc k) p = len-set vs k p
len-set (some q ∷ vs) (suc k) p = ap (λ n. suc n) (len-set vs k p)

get-set :
    (vs : Places) (k j : ℕ) (p q : TickSlabValue)
    → get vs k ≡ some q
    → get (set vs k p) j ≡ (if j == k then some p else get vs j)
unfolding get set
get-set [] k j p q e = cc e
get-set (none ∷ vs) zero j p q e = cc e
get-set (some r ∷ vs) zero zero p q e = refl
get-set (some r ∷ vs) zero (suc j) p q e = let o : (suc j == 0) ≡ false = ground arith in rw o refl
get-set (none ∷ vs) (suc k) zero p q e = let o : (0 == suc k) ≡ false = ground arith in rw o refl
get-set (some r ∷ vs) (suc k) zero p q e = let o : (0 == suc k) ≡ false = ground arith in rw o refl
get-set (none ∷ vs) (suc k) (suc j) p q e = rw (same_suc j k) (get-set vs k j p q e)
get-set (some r ∷ vs) (suc k) (suc j) p q e = rw (same_suc j k) (get-set vs k j p q e)

-- A value that is placed takes a vacant place, or one more.
size-place :
    (vs : Places) (p : TickSlabValue) (n : ℕ) → size vs ≤ n → len vs < n → size ((place vs p).0) ≤ n
unfolding size place len
size-place [] p n s l = omega arith
size-place (none ∷ vs) p n s l = s
size-place (some q ∷ vs) p zero s l = absurd (omega arith)
size-place (some q ∷ vs) p (suc n) s l =
    omega (arith, size-place vs p n (omega arith) (omega arith))

place_lt : (vs : Places) (p : TickSlabValue) (n : ℕ) → size vs ≤ n → len vs < n → (place vs p).1 < n
unfolding size place len
place_lt [] p n s l = omega arith
place_lt (none ∷ vs) p n s l = omega arith
place_lt (some q ∷ vs) p zero s l = absurd (omega arith)
place_lt (some q ∷ vs) p (suc n) s l = omega (arith, place_lt vs p n (omega arith) (omega arith))

len-place : (vs : Places) (p : TickSlabValue) → len ((place vs p).0) ≡ suc (len vs)
unfolding place len
len-place [] p = refl
len-place (none ∷ vs) p = refl
len-place (some q ∷ vs) p = ap (λ n. suc n) (len-place vs p)

get-place_fresh : (vs : Places) (p : TickSlabValue) → get vs ((place vs p).1) ≡ none
unfolding place get
get-place_fresh [] p = refl
get-place_fresh (none ∷ vs) p = refl
get-place_fresh (some q ∷ vs) p = get-place_fresh vs p

get-place :
    (vs : Places) (p : TickSlabValue) (j : ℕ)
    → get ((place vs p).0) j ≡ (if j == (place vs p).1 then some p else get vs j)
unfolding place get
get-place [] p zero = refl
get-place [] p (suc j) = let o : (suc j == 0) ≡ false = ground arith in rw o refl
get-place (none ∷ vs) p zero = refl
get-place (none ∷ vs) p (suc j) = let o : (suc j == 0) ≡ false = ground arith in rw o refl
get-place (some q ∷ vs) p zero =
    let o : (0 == suc ((place vs p).1)) ≡ false = ground arith in rw o refl
get-place (some q ∷ vs) p (suc j) = rw (same_suc j ((place vs p).1)) (get-place vs p j)

size-remove : (vs : Places) (k : ℕ) → size (remove vs k) ≡ size vs
unfolding size remove
size-remove [] k = refl
size-remove (v ∷ vs) zero = refl
size-remove (v ∷ vs) (suc k) = ap (λ n. suc n) (size-remove vs k)

len-remove :
    (vs : Places) (k : ℕ) (q : TickSlabValue) → get vs k ≡ some q → suc (len (remove vs k)) ≡ len vs
unfolding len remove get
len-remove [] k q e = cc e
len-remove (none ∷ vs) zero q e = cc e
len-remove (some r ∷ vs) zero q e = refl
len-remove (none ∷ vs) (suc k) q e = len-remove vs k q e
len-remove (some r ∷ vs) (suc k) q e = ap (λ n. suc n) (len-remove vs k q e)

get-remove : (vs : Places) (k j : ℕ) → get (remove vs k) j ≡ (if j == k then none else get vs j)
unfolding remove get
get-remove [] k j = elim (Bool-cases (j == k)) [ inl e ↦ rw e refl | inr e ↦ rw e refl ]
get-remove (v ∷ vs) zero zero = refl
get-remove (v ∷ vs) zero (suc j) = let o : (suc j == 0) ≡ false = ground arith in rw o refl
get-remove (v ∷ vs) (suc k) zero = let o : (0 == suc k) ≡ false = ground arith in rw o refl
get-remove (v ∷ vs) (suc k) (suc j) = rw (same_suc j k) (get-remove vs k j)

pub sample-Laws : SlabLaws sample
unfolding size len get
sample-Laws = record {
  Fits = λ vs. size vs ≤ 65535;
  new_fits = omega arith;
  new_len = refl;
  new_get = λ k. refl;
  set_fits = λ vs k p h. omega (arith, size-set vs k p);
  set_len = len-set;
  set_get = get-set;
  insert_fits = λ vs p h l. size-place vs p 65535 h l;
  insert_key = λ vs p h l. place_lt vs p 65535 h l;
  insert_len = len-place;
  insert_fresh = get-place_fresh;
  insert_get = get-place;
  remove_fits = λ vs k h. omega (arith, size-remove vs k);
  remove_len = len-remove;
  remove_get = get-remove;
}
