-- ===== src/Pool/Liquidity.antt =====
-- About `modify_liquidity`: what a change that succeeds has done to the ticks and to the state.
use rm_uniswap.Prelude.{
  ℕ, ◌+◌, ◌≤◌, ◌<◌, ◌≡◌, inl, inr, refl, sym, ap, ◌∙◌, arith, Bool, true, false, if◌then◌else◌,
  Option-cases, Bool-cases, ◌&&◌, pos_nonzero,
}
use rm_uniswap.Prelude.Int.{ℤ, abs, pos_part, neg_part, ◌<ℤ◌, leb_ℤ, ltb_ℤ}
use rm_uniswap.BalanceDelta.{BalanceDelta}
use rm_uniswap.Error.{Result, ok, err}
use rm_uniswap.Params.{ModifyLiquidityParams, ModifyLiquidityResult}
use rm_uniswap.Pool.{
  Pool, Bounds, Outside, and_then, with_ticks, update_tick, update_ticks, realize_fees, principal,
  change_active, modify_liquidity, check_ticks, validate_tick_index_for_spacing,
}
use rm_uniswap.Pool.Ticks.{Changed, update_tick-Changed, checked_add_signed-some}
use rm_uniswap.PoolState.{PoolState}
use rm_uniswap.Position.{PositionsAccess}
use rm_uniswap.SwapLoop.{checked_add_signed}
use rm_uniswap.SwapLoop.Ticks.{Coherent}
use rm_uniswap.TickKey.{from_tick, for_spacing}
use rm_uniswap.TickKey.Key.{IsSpacing}
use rm_uniswap.TickStore.{TickStore}
use rm_uniswap.TickStore.Laws.{StoreLaws}

-- What `check_ticks` lets through.
pub check_ticks-ok :
    (lower upper : ℤ) (spacing : ℕ) (u : Unit {0})
    → check_ticks lower upper spacing ≡ ok u
    → (lower <ℤ upper) × (for_spacing lower spacing ≡ true) × (for_spacing upper spacing ≡ true)
unfolding check_ticks validate_tick_index_for_spacing
check_ticks-ok lower upper spacing u e = ground arith

module _ (store : TickStore) (access : PositionsAccess) where
  abbrev P : Type 0
  P = Pool store access

  and_then-ok :
      {X Y : Type 0} (r : P × Result X) (next : P → X → P × Result Y) (p' : P) (y : Y)
      → and_then store access r next ≡ (p', ok y)
      → (p : P) × (x : X) × (r ≡ (p, ok x)) × (next p x ≡ (p', ok y))
  and_then-ok (p, ok x) next p' y e = (p, x, refl, e)
  and_then-ok {X} {Y} (p, err x) next p' y e = cc (ap (λ (q : P × Result Y). q.1) e)

  -- The state as it was, but for the active liquidity.
  pub record Moved (s s' : PoolState) (params : ModifyLiquidityParams) : Type 0 where
    pub price : s'.sqrt_price_x96 ≡ s.sqrt_price_x96
    pub tick : s'.tick ≡ s.tick
    pub growth0 : s'.fee_growth_global0_x128 ≡ s.fee_growth_global0_x128
    pub growth1 : s'.fee_growth_global1_x128 ≡ s.fee_growth_global1_x128
    pub liquidity :
        (if leb_ℤ params.tick_lower s.tick && ltb_ℤ s.tick params.tick_upper
          then s'.liquidity + neg_part params.liquidity_delta
          else s'.liquidity)
        ≡ (if leb_ℤ params.tick_lower s.tick && ltb_ℤ s.tick params.tick_upper
            then s.liquidity + pos_part params.liquidity_delta
            else s.liquidity)

  change_active-Moved :
      (p p' : P) (params : ModifyLiquidityParams) (u : Unit {0})
      → change_active store access p params ≡ (p', ok u)
      → Moved p.state p'.state params × (p'.ticks ≡ p.ticks)
  change_active-Moved p p' params u e =
      elim (Bool-cases
        (leb_ℤ params.tick_lower p.state.tick && ltb_ℤ p.state.tick params.tick_upper)) [
          | inr out ↦
              let same : p ≡ p' = ap (λ (q : P × Result (Unit {0})). q.0) (rw out at e) in
              rw (sym same) (
                record {
                  price = refl;
                  tick = refl;
                  growth0 = refl;
                  growth1 = refl;
                  liquidity = rw out;
                },
                refl,
              )
          | inl inside ↦
              let e' = rw inside at e in
              elim (Option-cases (checked_add_signed p.state.liquidity params.liquidity_delta)) [
                | inl over ↦ cc (ap (λ (q : P × Result (Unit {0})). q.1) (rw over at e'))
                | inr (l, fits) ↦
                    let same = ap (λ (q : P × Result (Unit {0})). q.0) (rw fits at e') in
                    rw (sym same) (
                      record {
                        price = refl;
                        tick = refl;
                        growth0 = refl;
                        growth1 = refl;
                        liquidity = rw inside (
                            checked_add_signed-some p.state.liquidity params.liquidity_delta l
                              fits);
                      },
                      refl,
                    )
              ]
        ]

  -- What a change of liquidity has done: one tick after the other, and the active liquidity.
  pub record Modified (p p' : P) (params : ModifyLiquidityParams) (spacing : ℕ)
      (laws : StoreLaws store) (is_spacing : IsSpacing spacing) : Type 0 where
    pub ordered : params.tick_lower <ℤ params.tick_upper
    pub between : store.Ticks
    pub lower :
        Changed store p.ticks between
          (from_tick params.tick_lower spacing)
          params.liquidity_delta
          false
    pub upper :
        Changed store between p'.ticks
          (from_tick params.tick_upper spacing)
          params.liquidity_delta
          true
    pub coherent : Coherent store laws spacing is_spacing p'.ticks
    pub moved : Moved p.state p'.state params

  module _ (laws : StoreLaws store) (spacing : ℕ) (is_spacing : IsSpacing spacing) where
    with_ticks-ok :
        {X : Type 0} (p p' : P) (r : store.Ticks × Result X) (x : X)
        → with_ticks store access p r ≡ (p', ok x)
        → (r ≡ (p'.ticks, ok x)) × (p'.state ≡ p.state)
    with_ticks-ok {X} p p' r x e =
        let pools = ap (λ (q : P × Result X). q.0) e in
        let results = ap (λ (q : P × Result X). q.1) e in
        let ticks : r.0 ≡ p'.ticks = ap (λ (q : P). q.ticks) pools in
        (rw (sym ticks, sym results) refl, sym (ap (λ (q : P). q.state) pools))

    kept :
        (p : P) (b : Bool) (x y : P × Result BalanceDelta)
        → (x.0.ticks ≡ p.ticks) × (x.0.state ≡ p.state)
        → (y.0.ticks ≡ p.ticks) × (y.0.state ≡ p.state)
        → ((if b then x else y).0.ticks ≡ p.ticks) × ((if b then x else y).0.state ≡ p.state)
    kept p true x y h k = h
    kept p false x y h k = k

    realize_fees-ticks :
        (p p' : P) (params : ModifyLiquidityParams) (o : Outside) (d : BalanceDelta)
        → realize_fees store access p params o ≡ (p', ok d)
        → (p'.ticks ≡ p.ticks) × (p'.state ≡ p.state)
    unfolding realize_fees
    realize_fees-ticks p p' params o d e =
        let (ticks, state) = kept p access.enable _ _ (refl, refl) (refl, refl) in
        let pools = ap (λ (q : P × Result BalanceDelta). q.0) e in
        (sym (ap (λ (q : P). q.ticks) pools) ∙ ticks, sym (ap (λ (q : P). q.state) pools) ∙ state)

    principal-Moved :
        (p p' : P) (params : ModifyLiquidityParams) (b : Bounds store access) (d : BalanceDelta)
        → 0 < abs params.liquidity_delta
        → principal store access p params b ≡ (p', ok d)
        → Moved p.state p'.state params × (p'.ticks ≡ p.ticks)
    unfolding principal
    principal-Moved p p' params b d nonzero e =
        let (p1, u, active, rest) =
          and_then-ok (change_active store access p params) _ p' d
            (rw (pos_nonzero (abs params.liquidity_delta) nonzero) at e) in
        let same : p1 ≡ p' = ap (λ (q : P × Result BalanceDelta). q.0) rest in
        rw (sym same) (change_active-Moved p p1 params u active)

    -- Both boundaries, one after the other.
    pub record Both (p p1 : P) (params : ModifyLiquidityParams) : Type 0 where
      pub between : store.Ticks
      pub lower :
          Changed store p.ticks between
            (from_tick params.tick_lower spacing)
            params.liquidity_delta
            false
      pub upper :
          Changed store between p1.ticks
            (from_tick params.tick_upper spacing)
            params.liquidity_delta
            true
      pub coherent : Coherent store laws spacing is_spacing p1.ticks
      pub state_eq : p1.state ≡ p.state

    update_ticks-Both :
        (p p1 : P) (params : ModifyLiquidityParams) (b : Bounds store access)
        → Coherent store laws spacing is_spacing p.ticks
        → abs params.tick_lower ≤ 887272
        → abs params.tick_upper ≤ 887272
        → for_spacing params.tick_lower spacing ≡ true
        → for_spacing params.tick_upper spacing ≡ true
        → 0 < abs params.liquidity_delta
        → update_ticks store access p params ≡ (p1, ok b)
        → Both p p1 params
    unfolding update_ticks
    update_ticks-Both p p1 params b c hl hu al au nonzero e =
        let (q, lower, e1, rest) =
          and_then-ok
            (with_ticks store access p
              (update_tick store p.state p.ticks params.tick_lower params.liquidity_delta false))
            _ p1 b (rw (pos_nonzero (abs params.liquidity_delta) nonzero) at e) in
        let (q', upper, e2, last) =
          and_then-ok
            (with_ticks store access q
              (update_tick store q.state q.ticks params.tick_upper params.liquidity_delta true))
            _ p1 b rest in
        let (r1, s1) = with_ticks-ok p q _ lower e1 in
        let (r2, s2) = with_ticks-ok q q' _ upper e2 in
        let (c1, ch1) =
          update_tick-Changed store laws spacing is_spacing p.state p.ticks q.ticks
            params.tick_lower params.liquidity_delta false lower hl al c r1 in
        let (c2, ch2) =
          update_tick-Changed store laws spacing is_spacing q.state q.ticks q'.ticks
            params.tick_upper params.liquidity_delta true upper hu au c1 r2 in
        let same : q' ≡ p1 = ap (λ (x : P × Result (Bounds store access)). x.0) last in
        rw (sym same) (record {
          between = q.ticks;
          lower = ch1;
          upper = ch2;
          coherent = c2;
          state_eq = s2 ∙ s1;
        })

    -- The parts of an operation that succeeded, put together.
    assemble :
        (p p0 p1 p2 p3 p' : P) (params : ModifyLiquidityParams)
        → params.tick_lower <ℤ params.tick_upper
        → p ≡ p0
        → Both p0 p1 params
        → p2.ticks ≡ p1.ticks
        → p2.state ≡ p1.state
        → Moved p2.state p3.state params
        → p3.ticks ≡ p2.ticks
        → p3 ≡ p'
        → Modified p p' params spacing laws is_spacing
    assemble p p0 p1 p2 p3 p' params ordered start both t2 s2 moved t3 last =
        let ticks : p3.ticks ≡ p1.ticks = t3 ∙ t2 in
        let state : p2.state ≡ p0.state = s2 ∙ both.state_eq in
        rw (sym last, start)
          (record {
            ordered = ordered;
            between = both.between;
            lower = both.lower;
            upper = rw ticks both.upper;
            coherent = rw ticks both.coherent;
            moved = rw (sym state) moved;
          })

    -- For ticks in order, boundaries of at most 887272 in magnitude, a nonzero change and a call
    -- that succeeds: the lower tick is below the upper; the lower boundary and then the upper one
    -- have changed by the amount, every other key is as before each of these; the ticks stay in
    -- order; price, tick and fee growth are as they were, and the active liquidity has moved by the
    -- amount where the current tick is in the range and not elsewhere.
    pub modify_liquidity-Modified :
        (p p' : P) (params : ModifyLiquidityParams) (r : ModifyLiquidityResult)
        → p.tick_spacing ≡ spacing
        → Coherent store laws spacing is_spacing p.ticks
        → abs params.tick_lower ≤ 887272
        → abs params.tick_upper ≤ 887272
        → 0 < abs params.liquidity_delta
        → modify_liquidity store access p params ≡ (p', ok r)
        → Modified p p' params spacing laws is_spacing
    unfolding modify_liquidity update_ticks
    modify_liquidity-Modified p p' params r same_spacing c hl hu nonzero e =
        let (p0, u, e0, rest0) =
          and_then-ok (p, check_ticks params.tick_lower params.tick_upper p.tick_spacing) _ p' r
            e in
        let start : p ≡ p0 = ap (λ (q : P × Result (Unit {0})). q.0) e0 in
        let (ordered, al, au) =
          check_ticks-ok params.tick_lower params.tick_upper p.tick_spacing u
            (ap (λ (q : P × Result (Unit {0})). q.1) e0) in
        let (p1, bounds, e1, rest1) =
          and_then-ok (update_ticks store access p0 params) _ p' r rest0 in
        let (p2, fee_delta, e2, rest2) =
          and_then-ok (realize_fees store access p1 params bounds.outside) _ p' r rest1 in
        let (p3, delta, e3, rest3) =
          and_then-ok (principal store access p2 params bounds) _ p' r rest2 in
        let last : p3 ≡ p' = ap (λ (q : P × Result ModifyLiquidityResult). q.0) rest3 in
        let (fees_ticks, fees_state) =
          realize_fees-ticks p1 p2 params bounds.outside fee_delta e2 in
        let (moved, principal_ticks) = principal-Moved p2 p3 params bounds delta nonzero e3 in
        assemble p p0 p1 p2 p3 p' params ordered start
          (update_ticks-Both p0 p1 params bounds (rw (sym start) c) hl hu (rw (sym same_spacing) al)
            (rw (sym same_spacing) au) nonzero e1)
          fees_ticks fees_state moved principal_ticks last
