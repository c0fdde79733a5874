-- ===== src/Pool/FeeGrowth.antt =====
-- About the fee growth inside a range: a crossing of a boundary does not change it.
use rm_uniswap.Prelude.{
  sym, ◌∙◌, inl, inr, ◌⊎◌, Bool, true, false, if◌then◌else◌, ℕ, ◌+◌, ◌^◌, ◌<◌, ◌≡◌, refl, arith,
  le→ltb, lt→ltb, lt→leb, le→leb,
}
use rm_uniswap.Prelude.Int.{ℤ, pos_part, neg_part, ◌<ℤ◌, ◌≤ℤ◌}
use rm_uniswap.Pool.{Outside, fee_growth_inside}
use rm_uniswap.PoolState.{PoolState}
use rm_uniswap.TickInfo.{TickInfoInner}
use rm_uniswap.TickStore.{TickStore, flip}
use rm_uniswap.Word.{wrapping_sub}

abbrev pub outside_at : TickInfoInner → TickInfoInner → Outside
outside_at lower upper = record {
  lower0 = lower.fee_growth_outside0_x128;
  lower1 = lower.fee_growth_outside1_x128;
  upper0 = upper.fee_growth_outside0_x128;
  upper1 = upper.fee_growth_outside1_x128;
}

-- Fee growth that is a 256-bit word.
pub record AreWords (s : PoolState) (lower upper : TickInfoInner) : Type 0 where
  pub global0 : s.fee_growth_global0_x128 < 2 ^ 256
  pub global1 : s.fee_growth_global1_x128 < 2 ^ 256
  pub lower0 : lower.fee_growth_outside0_x128 < 2 ^ 256
  pub lower1 : lower.fee_growth_outside1_x128 < 2 ^ 256
  pub upper0 : upper.fee_growth_outside0_x128 < 2 ^ 256
  pub upper1 : upper.fee_growth_outside1_x128 < 2 ^ 256

enter_below :
    (g l u : ℕ)
    → g < 2 ^ 256
    → l < 2 ^ 256
    → u < 2 ^ 256
    → wrapping_sub 256 (wrapping_sub 256 g (wrapping_sub 256 g l)) u ≡ wrapping_sub 256 l u
enter_below g l u hg hl hu = omega arith

leave_above :
    (g l u : ℕ)
    → g < 2 ^ 256
    → l < 2 ^ 256
    → u < 2 ^ 256
    → wrapping_sub 256 (wrapping_sub 256 g u) l ≡ wrapping_sub 256 (wrapping_sub 256 g l) u
leave_above g l u hg hl hu = omega arith

enter_above :
    (g l u : ℕ)
    → g < 2 ^ 256
    → l < 2 ^ 256
    → u < 2 ^ 256
    → wrapping_sub 256 (wrapping_sub 256 g l) (wrapping_sub 256 g u) ≡ wrapping_sub 256 u l
enter_above g l u hg hl hu = omega arith

-- The tick moves from `s` to `t` over the lower or the upper boundary of a range, in either direction.
abbrev pub Crosses : ℤ → ℤ → ℤ → ℤ → Bool → Type 0
Crosses lo hi s t false = (s <ℤ lo) × (lo ≤ℤ t) × (t <ℤ hi) ⊎ (lo ≤ℤ s) × (s <ℤ hi) × (t <ℤ lo)
Crosses lo hi s t true = (lo ≤ℤ s) × (s <ℤ hi) × (hi ≤ℤ t) ⊎ (hi ≤ℤ s) × (lo ≤ℤ t) × (t <ℤ hi)

tuple : {a b c d : ℕ} → a ≡ b → c ≡ d → ◌≡◌ {A = ℕ × ℕ} (a, c) (b, d)
tuple p q = rw (p, q) refl

-- The three cases of `fee_growth_inside`.
module _ (s : PoolState) (lo hi : ℤ) (o : Outside) where
  below_lem :
      s.tick <ℤ lo
      → fee_growth_inside s lo hi o
        ≡ (wrapping_sub 256 o.lower0 o.upper0, wrapping_sub 256 o.lower1 o.upper1)
  unfolding fee_growth_inside
  below_lem h = rw (lt→ltb _ _ h)

  inside_lem :
      lo ≤ℤ s.tick
      → s.tick <ℤ hi
      → fee_growth_inside s lo hi o ≡ (
        wrapping_sub 256 (wrapping_sub 256 s.fee_growth_global0_x128 o.lower0) o.upper0,
        wrapping_sub 256 (wrapping_sub 256 s.fee_growth_global1_x128 o.lower1) o.upper1,
      )
  unfolding fee_growth_inside
  inside_lem h k = rw (le→ltb _ _ h, lt→leb _ _ k)

  above_lem :
      lo <ℤ hi
      → hi ≤ℤ s.tick
      → fee_growth_inside s lo hi o
        ≡ (wrapping_sub 256 o.upper0 o.lower0, wrapping_sub 256 o.upper1 o.lower1)
  unfolding fee_growth_inside
  above_lem h k = rw (
    le→ltb (pos_part s.tick + neg_part lo) (pos_part lo + neg_part s.tick) (omega arith),
    le→leb _ _ k,
  )

-- For fee growth of 256-bit words and a move of the tick over the lower or the upper boundary of a
-- range, in or out: with that boundary flipped at the global growth, the fee growth inside the range
-- is what it was before.
pub fee_growth_inside-flip :
    (store : TickStore) (s : PoolState) (t lo hi : ℤ) (lower upper : TickInfoInner)
    (over_upper : Bool)
    → AreWords s lower upper
    → lo <ℤ hi
    → Crosses lo hi s.tick t over_upper
    → fee_growth_inside
        (record s { tick = t })
        lo
        hi
        (outside_at
          (if over_upper
            then lower
            else flip store s.fee_growth_global0_x128 s.fee_growth_global1_x128 lower)
          (if over_upper
            then flip store s.fee_growth_global0_x128 s.fee_growth_global1_x128 upper
            else upper))
      ≡ fee_growth_inside s lo hi (outside_at lower upper)
fee_growth_inside-flip store s t lo hi lower upper false w h (inl (a, b, c)) =
    inside_lem (record s { tick = t }) lo hi _ b c
    ∙ tuple (enter_below _ _ _ w.global0 w.lower0 w.upper0)
        (enter_below _ _ _ w.global1 w.lower1 w.upper1)
    ∙ sym (below_lem s lo hi _ a)
fee_growth_inside-flip store s t lo hi lower upper false w h (inr (a, b, c)) =
    below_lem (record s { tick = t }) lo hi _ c ∙ sym (inside_lem s lo hi _ a b)
fee_growth_inside-flip store s t lo hi lower upper true w h (inl (a, b, c)) =
    above_lem (record s { tick = t }) lo hi _ h c
    ∙ tuple (leave_above _ _ _ w.global0 w.lower0 w.upper0)
        (leave_above _ _ _ w.global1 w.lower1 w.upper1)
    ∙ sym (inside_lem s lo hi _ a b)
fee_growth_inside-flip store s t lo hi lower upper true w h (inr (a, b, c)) =
    inside_lem (record s { tick = t }) lo hi _ b c
    ∙ tuple (enter_above _ _ _ w.global0 w.lower0 w.upper0)
        (enter_above _ _ _ w.global1 w.lower1 w.upper1)
    ∙ sym (above_lem s lo hi _ h a)
