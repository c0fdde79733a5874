-- ===== src/SwapLoop/Quote.antt =====
-- `Pool::quote_swap` against `Pool::swap`: the run over the read-only traits and the run over the
-- mutating ones return the same result.
use rm_uniswap.Prelude.{
  ℕ, zero, suc, ◌<◌, ◌≡◌, inl, inr, refl, sym, ap, ◌∙◌, arith, Bool, true, false, Option, none,
  some, if◌then◌else◌, Option-cases, Bool-cases, ◌==◌,
}
use rm_uniswap.Prelude.Int.{ℤ, abs, leb_ℤ}
use rm_uniswap.Error.{ok_injective, Result, ok, err, Result-cases}
use rm_uniswap.Fee.{SwapFee}
use rm_uniswap.Params.{SwapParamsInner}
use rm_uniswap.PoolState.{PoolState, shared_state, exclusive_state}
use rm_uniswap.SwapLoop.{
  Boundary, Progress, begin, finished, swap_loop, swap_inner, swap_delta, limit_exceeded,
  after_loop, charge, turn, next_boundary, go_on, at_key, charged, with_crossing, growth0, growth1,
  within_word, word_boundary,
}
use rm_uniswap.SqrtPrice.{is_valid}
use rm_uniswap.TickInfo.{TickInfo}
use rm_uniswap.TickKey.{from_tick}
use rm_uniswap.TickKey.Key.{IsSpacing, from_tick_lt}
use rm_uniswap.TickStore.{
  TickStore, shared_ticks, exclusive_ticks, indexer, next_initialized_tick, observe_tick,
  cross_tick,
}
use rm_uniswap.TickStore.Alike.{
  Alike, next_outline, next_initialized_tick-Alike, CrossAlike, cross_tick-Alike,
}
use rm_uniswap.TickStore.Laws.{StoreLaws, key_bound}

-- A boundary is the same for the same outline.
within_word-alike :
    (z : Bool) (wb : ℤ) (o o' : Option (ℕ × TickInfo))
    → next_outline o ≡ next_outline o'
    → within_word z wb o ≡ within_word z wb o'
within_word-alike z wb none none e = refl
within_word-alike z wb none (some n) e = cc
within_word-alike z wb (some n) none e = cc
within_word-alike z wb (some n) (some n') e =
    let keys : n.0 ≡ n'.0 = cc e in
    let prices : n.1.sqrt_price_x96 ≡ n'.1.sqrt_price_x96 = cc e in
    let ticks : n.1.tick_index ≡ n'.1.tick_index = cc e in rw (keys, prices, ticks) refl

module _ (store : TickStore) (laws : StoreLaws store) (spacing : ℕ) (fees : SwapFee)
    (params : SwapParamsInner) (start : PoolState) where
  open params use {zero_for_one, amount_specified, sqrt_price_limit}

  -- Two turns, or two loops, with the same result and stores that are alike.
  abbrev TurnAlike : store.Ticks × Result Progress → store.Ticks × Result Progress → Type 0
  TurnAlike r r' = (r.1 ≡ r'.1) × Alike store (r.0) (r'.0)

  indexer-Alike :
      (ticks ticks' : store.Ticks) (tick : ℤ)
      → Alike store ticks ticks'
      → indexer store ticks tick ≡ indexer store ticks' tick
  unfolding indexer
  indexer-Alike ticks ticks' tick alike = ap (from_tick tick) alike.spacing_eq

  indexer_lt :
      (ticks : store.Ticks) (tick : ℤ)
      → IsSpacing (store.tick_spacing ticks)
      → indexer store ticks tick < key_bound
  unfolding indexer
  indexer_lt ticks tick h = from_tick_lt tick (store.tick_spacing ticks) h

  next_boundary-Alike :
      (ticks ticks' : store.Ticks) (tick : ℤ)
      → Alike store ticks ticks'
      → IsSpacing (store.tick_spacing ticks)
      → next_boundary (shared_ticks store) spacing fees params start ticks tick
        ≡ next_boundary (exclusive_ticks store) spacing fees params start ticks' tick
  unfolding next_boundary
  next_boundary-Alike ticks ticks' tick alike h =
      let key = indexer store ticks tick in
      let same =
        next_initialized_tick-Alike store laws ticks ticks' alike key zero_for_one
          (indexer_lt ticks tick h) in
      within_word-alike zero_for_one (word_boundary tick spacing zero_for_one) _ _ (
        same
        ∙ ap (λ (k : ℕ). next_outline (next_initialized_tick store ticks' k zero_for_one))
            (indexer-Alike ticks ticks' tick alike))

  -- The next initialized tick is in the store.
  next_initialized_tick-get :
      (ticks : store.Ticks) (from key : ℕ) (info : TickInfo) (z : Bool)
      → from < key_bound
      → next_initialized_tick store ticks from z ≡ some (key, info)
      → (key < key_bound) × (store.get ticks key ≡ some info)
  unfolding next_initialized_tick
  next_initialized_tick-get ticks from key info false h e =
      let (lt, fits, got, gap) = laws.next_some ticks from key info h e in (fits, got)
  next_initialized_tick-get ticks from key info true h e =
      elim (Option-cases (store.get ticks from)) [
        | inl missing ↦
            let (lt, got, gap) = laws.prev_some ticks from key info h (rw missing at e) in
            (omega arith, got)
        | inr (found, got) ↦
            let e' = rw got at e in
            let same_key : from ≡ key = cc e' in
            let same_info : found ≡ info = cc e' in
            (omega arith, rw (sym same_key, sym same_info) got)
      ]

  -- A boundary with a key is the next initialized tick.
  within_word-key :
      (z : Bool) (wb : ℤ) (o : Option (ℕ × TickInfo)) (key : ℕ)
      → (within_word z wb o).key ≡ some key
      → (info : TickInfo) × (o ≡ some (key, info))
  within_word-key z wb none key e = cc
  within_word-key z wb (some (k, i)) key e =
      elim (Bool-cases (if z then leb_ℤ wb i.tick_index else leb_ℤ i.tick_index wb)) [
        | inl t ↦ let same : k ≡ key = cc (rw t at e) in (i, ap (λ (n : ℕ). some (n, i)) same)
        | inr f ↦ cc (rw f at e)
      ]

  boundary_key :
      (ticks : store.Ticks) (tick : ℤ) (key : ℕ)
      → IsSpacing (store.tick_spacing ticks)
      → (next_boundary (shared_ticks store) spacing fees params start ticks tick).key ≡ some key
      → (info : TickInfo) × (key < key_bound) × (store.get ticks key ≡ some info)
  unfolding next_boundary
  boundary_key ticks tick key h e =
      let from = indexer store ticks tick in
      let (info, found) =
        within_word-key zero_for_one (word_boundary tick spacing zero_for_one)
          (next_initialized_tick store ticks from zero_for_one) key e in
      let (fits, got) =
        next_initialized_tick-get ticks from key info zero_for_one (indexer_lt ticks tick h)
          found in
      (info, fits, got)

  with_crossing-alike :
      (b : Boundary) (p : ℕ) (w : Progress) (ticks ticks' : store.Ticks)
      (r r' : Result (store.Ticks × ℤ))
      → CrossAlike store r r'
      → TurnAlike
          (with_crossing (shared_ticks store) spacing fees params start ticks b p w r)
          (with_crossing (exclusive_ticks store) spacing fees params start ticks' b p w r')
  with_crossing-alike b p w ticks ticks' r r' c = rw (c.observed, c.crossed) (refl, c.after_alike)

  choose-alike :
      (c : Bool) (x y x' y' : store.Ticks × Result Progress)
      → TurnAlike x x'
      → TurnAlike y y'
      → TurnAlike (if c then x else y) (if c then x' else y')
  choose-alike true x y x' y' h k = h
  choose-alike false x y x' y' h k = k

  -- The end of a turn, by whether the boundary is an initialized tick.
  at_key-Alike :
      (b : Boundary) (p : ℕ) (w : Progress) (ticks ticks' : store.Ticks)
      → Alike store ticks ticks'
      → (o : Option ℕ)
      → ((key : ℕ)
          → o ≡ some key
          → (info : TickInfo) × (key < key_bound) × (store.get ticks key ≡ some info))
      → TurnAlike
          (at_key (shared_ticks store) spacing fees params start ticks b p w o)
          (at_key (exclusive_ticks store) spacing fees params start ticks' b p w o)
  at_key-Alike b p w ticks ticks' alike none found = (refl, alike)
  at_key-Alike b p w ticks ticks' alike (some key) found =
      let (info, fits, got) = found key refl in
      let g0 = growth0 (shared_ticks store) spacing fees params start w in
      let g1 = growth1 (shared_ticks store) spacing fees params start w in
      choose-alike (w.sqrt_price_x96 == b.sqrt_price_x96) _ _ _ _
        (with_crossing-alike b p w ticks ticks' (observe_tick store ticks key g0 g1)
          (cross_tick store ticks' key g0 g1)
          (cross_tick-Alike store laws ticks ticks' alike key g0 g1 info fits got))
        (refl, alike)

  charged-Alike :
      (b : Boundary) (p : ℕ) (ticks ticks' : store.Ticks)
      → Alike store ticks ticks'
      → ((key : ℕ)
          → b.key ≡ some key
          → (info : TickInfo) × (key < key_bound) × (store.get ticks key ≡ some info))
      → (r : Result Progress)
      → TurnAlike
          (charged (shared_ticks store) spacing fees params start ticks b p r)
          (charged (exclusive_ticks store) spacing fees params start ticks' b p r)
  charged-Alike b p ticks ticks' alike found (err e) = (refl, alike)
  charged-Alike b p ticks ticks' alike found (ok w) =
      at_key-Alike b p w ticks ticks' alike b.key found

  turn-Alike :
      (ticks ticks' : store.Ticks) (w : Progress)
      → Alike store ticks ticks'
      → IsSpacing (store.tick_spacing ticks)
      → TurnAlike
          (turn (shared_ticks store) spacing fees params start ticks w)
          (turn (exclusive_ticks store) spacing fees params start ticks' w)
  unfolding turn charge
  turn-Alike ticks ticks' w alike h =
      let b = next_boundary (shared_ticks store) spacing fees params start ticks w.tick in
      rw (sym (next_boundary-Alike ticks ticks' w.tick alike h)) (
        charged-Alike b w.sqrt_price_x96 ticks ticks' alike
          (λ key e. boundary_key ticks w.tick key h e)
          (charge (shared_ticks store) spacing fees params start b w))

  -- A turn keeps the spacing of the store that is only read.
  go_on-Alike :
      (rest rest' : store.Ticks → Progress → store.Ticks × Option (Result Progress))
      (r r' : store.Ticks × Result Progress)
      → TurnAlike r r'
      → ((w : Progress) → Alike store (r.0) (r'.0) → (rest (r.0) w).1 ≡ (rest' (r'.0) w).1)
      → (go_on (shared_ticks store) spacing fees params start rest r).1
        ≡ (go_on (exclusive_ticks store) spacing fees params start rest' r').1
  go_on-Alike rest rest' (ticks, err e) (ticks', err e') (same, alike) next = cc same
  go_on-Alike rest rest' (ticks, err e) (ticks', ok w') (same, alike) next = cc same
  go_on-Alike rest rest' (ticks, ok w) (ticks', err e') (same, alike) next = cc same
  go_on-Alike rest rest' (ticks, ok w) (ticks', ok w') (same, alike) next =
      next w alike ∙ ap (λ (v : Progress). (rest' ticks' v).1) (ok_injective same)

  pub swap_loop-Alike :
      (fuel : ℕ) (ticks ticks' : store.Ticks) (w : Progress)
      → Alike store ticks ticks'
      → (swap_loop (shared_ticks store) spacing fees params start fuel ticks w).1
        ≡ (swap_loop (exclusive_ticks store) spacing fees params start fuel ticks' w).1
  unfolding swap_loop
  swap_loop-Alike zero ticks ticks' w alike = refl
  swap_loop-Alike (suc fuel) ticks ticks' w alike =
      elim (Bool-cases (finished (shared_ticks store) spacing fees params start w)) [
        | inl f ↦ rw (f, swap_loop)
        | inr more ↦
            rw (more, swap_loop)
              (go_on-Alike (swap_loop (shared_ticks store) spacing fees params start fuel)
                (swap_loop (exclusive_ticks store) spacing fees params start fuel)
                (turn (shared_ticks store) spacing fees params start ticks w)
                (turn (exclusive_ticks store) spacing fees params start ticks' w)
                (turn-Alike ticks ticks' w alike alike.is_spacing)
                λ w' alike'. swap_loop-Alike fuel _ _ w' alike')
      ]

module _ (store : TickStore) (laws : StoreLaws store) (spacing : ℕ) (fees : SwapFee)
    (params : SwapParamsInner) where
  open params use {amount_specified}

  -- What follows the loop depends on its result alone.
  after_loop-alike :
      (state : PoolState) (ticks ticks' : store.Ticks) (r : Option (Result Progress))
      → (after_loop (shared_ticks store) shared_state spacing fees params state ticks r).result
        ≡ (after_loop
            (exclusive_ticks store)
            exclusive_state
            spacing
            fees
            params
            state
            ticks'
            r).result
  unfolding swap_delta
  after_loop-alike state ticks ticks' none = refl
  after_loop-alike state ticks ticks' (some (err e)) = refl
  after_loop-alike state ticks ticks' (some (ok w)) =
      elim (Result-cases (swap_delta (shared_ticks store) spacing fees params state w)) [
        | inl (d, e) ↦ rw e
        | inr (x, e) ↦ rw e
      ]

  pub swap_inner-Alike :
      (fuel : ℕ) (state : PoolState) (ticks ticks' : store.Ticks)
      → Alike store ticks ticks'
      → (swap_inner (shared_ticks store) shared_state spacing fees params fuel state ticks).result
        ≡ (swap_inner
            (exclusive_ticks store)
            exclusive_state
            spacing
            fees
            params
            fuel
            state
            ticks').result
  unfolding swap_inner
  swap_inner-Alike fuel state ticks ticks' alike =
      let w = begin (shared_ticks store) spacing fees params state in
      let r = swap_loop (shared_ticks store) spacing fees params state fuel ticks w in
      let r' = swap_loop (exclusive_ticks store) spacing fees params state fuel ticks' w in
      let loops : r.1 ≡ r'.1 =
        swap_loop-Alike store laws spacing fees params state fuel ticks ticks' w alike in
      let ends =
        after_loop-alike state (r.0) (r'.0) (r.1)
        ∙ ap
            (λ (o : Option (Result Progress)).
              (after_loop (exclusive_ticks store) exclusive_state spacing fees params state (r'.0)
                o).result)
            loops in
      elim (Bool-cases (abs amount_specified == 0)) [
        | inl zero_amount ↦ rw zero_amount
        | inr amount ↦ rw amount (elim (Bool-cases (is_valid state.sqrt_price_x96)) [
          | inr bad ↦ rw bad
          | inl price ↦
              rw price
                (elim (Bool-cases (limit_exceeded (shared_ticks store) spacing fees params state)) [
                  | inl exceeded ↦ rw exceeded
                  | inr within ↦ rw within ends
                ])
        ])
      ]
