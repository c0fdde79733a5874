-- ===== src/TickSlab/Store.antt =====
-- `TickSlab` as the tick store of the pool: a slab with its invariant, and that it keeps the promises.
use rm_uniswap.Prelude.{◌≡◌, refl, sym, ap, ◌∙◌}
use rm_uniswap.Error.{Result, ok, err}
use rm_uniswap.TickSlab.{Slab, TickSlab, get_tick, insert, set_inner, remove, next, prev}
use rm_uniswap.TickSlab.Crate.{SlabLaws}
use rm_uniswap.TickSlab.Removal.{remove-Removed}
use rm_uniswap.TickSlab.Search.{next-IsAfter}
use rm_uniswap.TickSlab.SearchDown.{prev-IsBefore}
use rm_uniswap.TickSlab.Well.{IsSlab}
use rm_uniswap.TickSlab.Insertion.{insert_ok-Inserted}
use rm_uniswap.TickSlab.Writes.{set_inner-IsSlab, get_tick-set_inner, spacing-set_inner}
use rm_uniswap.TickStore.{TickStore}
use rm_uniswap.TickStore.Laws.{StoreLaws}

module _ (slab : Slab) (laws : SlabLaws slab) where
  abbrev pub Ticks : Type 0
  Ticks = (t : TickSlab slab) × IsSlab slab laws t

  abbrev pub with_proof :
      (r : Result (TickSlab slab))
      → ((t' : TickSlab slab) → r ≡ ok t' → IsSlab slab laws t')
      → Result Ticks
  with_proof (err e) kept = err e
  with_proof (ok t') kept = ok (t', kept t' refl)

  abbrev without_proof : Result Ticks → Result (TickSlab slab)
  without_proof (err e) = err e
  without_proof (ok ticks) = ok (ticks.0)

  without-with_proof :
      (r : Result (TickSlab slab)) (kept : (t' : TickSlab slab) → r ≡ ok t' → IsSlab slab laws t')
      → without_proof (with_proof r kept) ≡ r
  without-with_proof (err e) kept = refl
  without-with_proof (ok t') kept = refl

  with_proof_ok :
      (r : Result (TickSlab slab)) (kept : (t' : TickSlab slab) → r ≡ ok t' → IsSlab slab laws t')
      (ticks : Ticks)
      → with_proof r kept ≡ ok ticks
      → r ≡ ok (ticks.0)
  with_proof_ok r kept ticks q = sym (without-with_proof r kept) ∙ ap without_proof q

  abbrev pub tick_slab : TickStore
  tick_slab = record {
    Ticks = Ticks;
    tick_spacing = λ ticks. (ticks.0).tick_spacing;
    max_liquidity_per_tick = λ ticks. (ticks.0).max_liquidity;
    get = λ ticks key. get_tick slab (ticks.0) key;
    next = λ ticks key. next slab (ticks.0) key;
    prev = λ ticks key. prev slab (ticks.0) key;
    insert = λ ticks key info.
        with_proof (insert slab (ticks.0) key info)
          (λ t' e. (insert_ok-Inserted slab laws (ticks.0) (ticks.1) key info t' e).still);
    set_inner = λ ticks key inner. (
      set_inner slab (ticks.0) key inner,
      set_inner-IsSlab slab laws (ticks.0) (ticks.1) key inner,
    );
    remove = λ ticks key.
        (remove slab (ticks.0) key, (remove-Removed slab laws (ticks.0) (ticks.1) key).still);
  }

  -- For any slab crate that keeps its documented behaviour, and slabs with their invariant, which
  -- every operation keeps, the store keeps all promises of `StoreLaws`, for keys of 21 bits: after
  -- `insert`, `set_inner` and `remove`, `get` returns what was written for that key and what it
  -- returned before for every other one; `next` and `prev` return the nearest tick above and below a
  -- key, and none only where there is none; no write changes the spacing.
  pub tick_slab-Laws : StoreLaws tick_slab
  tick_slab-Laws = record {
    get_set_inner =
        λ ticks k j inner hk hj. get_tick-set_inner slab laws (ticks.0) (ticks.1) k j inner hk hj;
    get_insert = λ ticks ticks' k j info hk hj e.
        (insert_ok-Inserted slab laws (ticks.0) (ticks.1) k info (ticks'.0)
            (with_proof_ok (insert slab (ticks.0) k info) _ ticks' e)).reads
          j hk hj;
    get_remove = λ ticks k j hk hj. (remove-Removed slab laws (ticks.0) (ticks.1) k).reads j hk hj;
    next_some = λ ticks k j info hk e. rw e at (next-IsAfter slab laws (ticks.0) (ticks.1) k hk);
    next_none = λ ticks k m hk e. rw e at (next-IsAfter slab laws (ticks.0) (ticks.1) k hk) m;
    prev_some = λ ticks k j info hk e. rw e at (prev-IsBefore slab laws (ticks.0) (ticks.1) k hk);
    prev_none = λ ticks k m hk e. rw e at (prev-IsBefore slab laws (ticks.0) (ticks.1) k hk) m;
    spacing_set_inner = λ ticks k inner. spacing-set_inner slab laws (ticks.0) (ticks.1) k inner;
    spacing_insert = λ ticks ticks' k info e.
        (insert_ok-Inserted slab laws (ticks.0) (ticks.1) k info (ticks'.0)
          (with_proof_ok (insert slab (ticks.0) k info) _ ticks' e)).spacing_eq;
    spacing_remove = λ ticks k. (remove-Removed slab laws (ticks.0) (ticks.1) k).spacing_eq;
  }
