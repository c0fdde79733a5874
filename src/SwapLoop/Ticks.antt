-- ===== src/SwapLoop/Ticks.antt =====
-- The two implementations of `TickAccess` over a tick store that keeps its promises: in a store whose
-- ticks are aligned and carry their own price, the next tick is one, and a crossing keeps it so.
use rm_uniswap.Prelude.{
  ℕ, ◌+◌, ◌≤◌, ◌<◌, ◌≡◌, inl, inr, sym, ap, ◌∙◌, arith, Bool, true, false, some, Option-cases,
  Bool-cases, ◌==◌, lt_or_ge, if_true, if_false,
}
use rm_uniswap.Prelude.Int.{ℤ, abs, pos_part, neg_part, ◌<ℤ◌, ◌≤ℤ◌}
use rm_uniswap.Error.{ok, ok_injective}
use rm_uniswap.SwapLoop.Ends.{Orderly, Forward, times_le, lt_times}
use rm_uniswap.TickInfo.{TickInfo, TickInfoInner}
use rm_uniswap.TickKey.{from_tick, for_spacing, div_euclid}
use rm_uniswap.TickKey.Key.{IsSpacing, from_tick-order, times-div_euclid, from_tick_lt}
use rm_uniswap.TickMath.{get_sqrt_price_at_tick}
use rm_uniswap.TickStore.{
  TickStore, indexer, next_initialized_tick, cross_tick, observe_tick, update_initialized_tick,
  shared_ticks, exclusive_ticks, flip,
}
use rm_uniswap.TickStore.Laws.{StoreLaws, key_bound, with_inner}

-- A tick of the store: in range, on the spacing, under its own key, with its own price.
pub record IsStored (spacing key : ℕ) (info : TickInfo) : Type 0 where
  pub in_range : abs info.tick_index ≤ 887272
  pub aligned : for_spacing info.tick_index spacing ≡ true
  pub price : info.sqrt_price_x96 ≡ get_sqrt_price_at_tick info.tick_index
  pub own_key : key ≡ from_tick info.tick_index spacing

module _ (store : TickStore) (laws : StoreLaws store) (spacing : ℕ)
    (is_spacing : IsSpacing spacing) where
  pub record Coherent (ticks : store.Ticks) : Type 0 where
    pub spacing_eq : store.tick_spacing ticks ≡ spacing
    pub stored :
        (key : ℕ) (info : TickInfo)
        → key < key_bound
        → store.get ticks key ≡ some info
        → IsStored spacing key info

  -- An aligned tick is at or below another where its key is not above, and above where its key is.
  at_or_below_lem :
      (key : ℕ) (info : TickInfo) (tick : ℤ)
      → IsStored spacing key info
      → abs tick ≤ 887272
      → key ≤ from_tick tick spacing
      → info.tick_index ≤ℤ tick
  at_or_below_lem key info tick h ht le =
      let order = from_tick-order tick info.tick_index spacing ht h.in_range is_spacing in
      let below : div_euclid info.tick_index spacing ≤ℤ div_euclid tick spacing =
        elim (lt_or_ge
          (pos_part (div_euclid tick spacing) + neg_part (div_euclid info.tick_index spacing))
          (pos_part (div_euclid info.tick_index spacing) + neg_part (div_euclid tick spacing))) [
            | inl lt ↦ absurd (omega (arith, order.1 lt, h.own_key))
            | inr ge ↦ ge
          ] in
      rw (times-div_euclid info.tick_index spacing is_spacing.positive h.aligned) at
        (times_le (div_euclid info.tick_index spacing) tick spacing is_spacing.positive below)

  above_lem :
      (key : ℕ) (info : TickInfo) (tick : ℤ)
      → IsStored spacing key info
      → abs tick ≤ 887272
      → from_tick tick spacing < key
      → tick <ℤ info.tick_index
  above_lem key info tick h ht lt =
      let order = from_tick-order tick info.tick_index spacing ht h.in_range is_spacing in
      rw (times-div_euclid info.tick_index spacing is_spacing.positive h.aligned) at (
        lt_times (div_euclid info.tick_index spacing) tick spacing is_spacing.positive
          (order.0 (omega (arith, h.own_key))))

  module _ (ticks : store.Ticks) (c : Coherent ticks) (tick : ℤ) (ht : abs tick ≤ 887272) where
    -- For ticks in order and a tick of at most 887272 in magnitude: a next initialized tick has a
    -- 21-bit key, is stored under it, and lies at or below the tick downwards and above it upwards.
    pub next_initialized_tick-ahead :
        (zero_for_one : Bool) (key : ℕ) (info : TickInfo)
        → next_initialized_tick store ticks (from_tick tick spacing) zero_for_one ≡ some (key, info)
        → (key < key_bound)
          × (store.get ticks key ≡ some info)
          × Forward zero_for_one tick info.tick_index
    unfolding next_initialized_tick
    next_initialized_tick-ahead false key info e =
        let (lt, fits, got, gap) =
          laws.next_some ticks (from_tick tick spacing) key info
            (from_tick_lt tick spacing is_spacing) e in
        (fits, got, inl (above_lem key info tick (c.stored key info fits got) ht lt))
    next_initialized_tick-ahead true key info e =
        let bound = from_tick_lt tick spacing is_spacing in
        elim (Option-cases (store.get ticks (from_tick tick spacing))) [
          | inl missing ↦
              let (lt, got, gap) =
                laws.prev_some ticks (from_tick tick spacing) key info bound (rw missing at e) in
              let fits : key < key_bound = omega arith in
              (
                fits,
                got,
                at_or_below_lem key info tick (c.stored key info fits got) ht (omega arith),
              )
          | inr (found, got) ↦
              let e' = rw got at e in
              let same_key : from_tick tick spacing ≡ key = cc e' in
              let same_info : found ≡ info = cc e' in
              let got' : store.get ticks key ≡ some info = rw (sym same_key, sym same_info) got in
              let fits : key < key_bound = omega (arith, same_key, bound) in
              (
                fits,
                got',
                at_or_below_lem key info tick (c.stored key info fits got') ht
                    (omega (arith, same_key)),
              )
        ]

  -- Writing fee growth to a stored tick keeps the store in order.
  pub set_inner-Coherent :
      (ticks : store.Ticks) (key : ℕ) (inner : TickInfoInner)
      → key < key_bound
      → Coherent ticks
      → Coherent (store.set_inner ticks key inner)
  set_inner-Coherent ticks key inner hk c = record {
    spacing_eq = laws.spacing_set_inner ticks key inner ∙ c.spacing_eq;
    stored = λ j info hj e. elim (Bool-cases (j == key)) [
      | inr other ↦
          c.stored j info hj
            (sym (if_false _ _ _ other) ∙ sym (laws.get_set_inner ticks key j inner hk hj) ∙ e)
      | inl same ↦
          let e' : with_inner inner (store.get ticks j) ≡ some info =
            sym (if_true _ _ _ same) ∙ sym (laws.get_set_inner ticks key j inner hk hj) ∙ e in
          elim (Option-cases (store.get ticks j)) [
            | inl missing ↦ cc (rw missing at e')
            | inr (found, got) ↦
                let h = c.stored j found hj got in
                let built : record found { inner = inner } ≡ info = cc (rw got at e') in
                rw (sym built) (record {
                  in_range = h.in_range;
                  aligned = h.aligned;
                  price = h.price;
                  own_key = h.own_key;
                })
          ]
    ];
  }

  cross_tick-Coherent :
      (ticks ticks' : store.Ticks) (key growth0 growth1 : ℕ) (net : ℤ)
      → Coherent ticks
      → key < key_bound
      → cross_tick store ticks key growth0 growth1 ≡ ok (ticks', net)
      → Coherent ticks'
  unfolding cross_tick update_initialized_tick
  cross_tick-Coherent ticks ticks' key growth0 growth1 net c hk e =
      elim (Option-cases (store.get ticks key)) [
        | inl missing ↦ cc (rw missing at e)
        | inr (info, got) ↦
            let same : store.set_inner ticks key (flip store growth0 growth1 info.inner) ≡ ticks' =
              ap (λ (r : store.Ticks × ℤ). r.0) (ok_injective (rw got at e)) in
            rw (sym same)
              (set_inner-Coherent ticks key (flip store growth0 growth1 info.inner) hk c)
      ]

  observe_tick-Coherent :
      (ticks ticks' : store.Ticks) (key growth0 growth1 : ℕ) (net : ℤ)
      → Coherent ticks
      → observe_tick store ticks key growth0 growth1 ≡ ok (ticks', net)
      → Coherent ticks'
  unfolding observe_tick
  observe_tick-Coherent ticks ticks' key growth0 growth1 net c e =
      elim (Option-cases (store.get ticks key)) [
        | inl missing ↦ cc (rw missing at e)
        | inr (info, got) ↦
            let same : ticks ≡ ticks' =
              ap (λ (r : store.Ticks × ℤ). r.0) (ok_injective (rw got at e)) in
            rw (sym same) c
      ]

  indexer_lem :
      (ticks : store.Ticks) (tick : ℤ)
      → Coherent ticks
      → indexer store ticks tick ≡ from_tick tick spacing
  unfolding indexer
  indexer_lem ticks tick c = rw c.spacing_eq

  next_lem :
      (ticks : store.Ticks) (tick : ℤ) (zero_for_one : Bool) (key : ℕ) (info : TickInfo)
      → Coherent ticks
      → abs tick ≤ 887272
      → next_initialized_tick store ticks (indexer store ticks tick) zero_for_one ≡ some (key, info)
      → (key < key_bound)
        × (abs info.tick_index ≤ 887272)
        × (info.sqrt_price_x96 ≡ get_sqrt_price_at_tick info.tick_index)
        × Forward zero_for_one tick info.tick_index
  next_lem ticks tick zero_for_one key info c ht e =
      let (fits, got, ahead) =
        next_initialized_tick-ahead ticks c tick ht zero_for_one key info
          (rw (indexer_lem ticks tick c) at e) in
      let h = c.stored key info fits got in (fits, h.in_range, h.price, ahead)

  pub exclusive_ticks-Orderly : Orderly (exclusive_ticks store) Coherent
  exclusive_ticks-Orderly = record { next_lem = next_lem; cross_lem = cross_tick-Coherent }

  pub shared_ticks-Orderly : Orderly (shared_ticks store) Coherent
  shared_ticks-Orderly = record {
    next_lem = next_lem;
    cross_lem = λ ticks ticks' key growth0 growth1 net c hk e.
        observe_tick-Coherent ticks ticks' key growth0 growth1 net c e;
  }
