-- ===== src/TickStore/Alike.antt =====
-- Stores that hold the same ticks up to their fee growth: the next initialized tick is the same, and a
-- crossing reports the same net liquidity and leaves the stores alike.
use rm_uniswap.Prelude.{
  ℕ, ◌<◌, ◌≡◌, inl, inr, refl, sym, ap, ◌∙◌, arith, Bool, true, false, Option, none, some,
  Option-cases, Bool-cases, ◌==◌, lt_or_ge, ==_iff,
}
use rm_uniswap.Prelude.Int.{ℤ}
use rm_uniswap.Error.{Result, ok}
use rm_uniswap.TickInfo.{TickInfo}
use rm_uniswap.TickKey.Key.{IsSpacing}
use rm_uniswap.TickStore.{
  TickStore, next_initialized_tick, cross_tick, observe_tick, update_initialized_tick, flip,
}
use rm_uniswap.TickStore.Laws.{StoreLaws, key_bound, with_inner}

-- What a crossing does not write: the price, the tick and the net liquidity.
abbrev pub outline : Option TickInfo → Option (ℕ × ℤ × ℤ)
outline none = none
outline (some info) = some (info.sqrt_price_x96, info.tick_index, info.inner.liquidity_net)

abbrev pub next_outline : Option (ℕ × TickInfo) → Option (ℕ × ℕ × ℤ × ℤ)
next_outline none = none
next_outline (some next) =
    some (next.0, next.1.sqrt_price_x96, next.1.tick_index, next.1.inner.liquidity_net)

outline-none : (o : Option TickInfo) → outline o ≡ none → o ≡ none
outline-none none e = refl
outline-none (some i) e = cc

module _ (store : TickStore) where
  pub record Alike (ticks ticks' : store.Ticks) : Type 0 where
    pub is_spacing : IsSpacing (store.tick_spacing ticks)
    pub spacing_eq : store.tick_spacing ticks ≡ store.tick_spacing ticks'
    pub outline_eq :
        (key : ℕ) → key < key_bound → outline (store.get ticks key) ≡ outline (store.get ticks' key)

  -- Crossing a tick of both stores, on the one without and on the other with the write.
  pub record CrossAlike (r r' : Result (store.Ticks × ℤ)) : Type 0 where
    pub after : store.Ticks
    pub after' : store.Ticks
    pub net : ℤ
    pub observed : r ≡ ok (after, net)
    pub crossed : r' ≡ ok (after', net)
    pub after_alike : Alike after after'

  module _ (laws : StoreLaws store) (ticks ticks' : store.Ticks) (alike : Alike ticks ticks') where
    -- A key that is missing on the one side is missing on the other.
    missing_right :
        (key : ℕ) → key < key_bound → store.get ticks key ≡ none → store.get ticks' key ≡ none
    missing_right key h e =
        outline-none (store.get ticks' key) (sym (alike.outline_eq key h) ∙ ap outline e)

    missing_left :
        (key : ℕ) → key < key_bound → store.get ticks' key ≡ none → store.get ticks key ≡ none
    missing_left key h e =
        outline-none (store.get ticks key) (alike.outline_eq key h ∙ ap outline e)

    -- The same key on both sides gives the same outline.
    found_both :
        (j j' : ℕ) (info info' : TickInfo)
        → j < key_bound
        → j ≡ j'
        → store.get ticks j ≡ some info
        → store.get ticks' j' ≡ some info'
        → next_outline (some (j, info)) ≡ next_outline (some (j', info'))
    found_both j j' info info' h same e e' =
        let outlines : outline (some info) ≡ outline (some info') =
          sym (ap outline e)
          ∙ alike.outline_eq j h
          ∙ ap (λ (k : ℕ). outline (store.get ticks' k)) same
          ∙ ap outline e' in
        cc (same, outlines)

    next_alike :
        (key : ℕ)
        → key < key_bound
        → next_outline (store.next ticks key) ≡ next_outline (store.next ticks' key)
    next_alike key h = elim (Option-cases (store.next ticks key)) [
      | inl e ↦ elim (Option-cases (store.next ticks' key)) [
        | inl e' ↦ rw (e, e')
        | inr (n', e') ↦
            let (lt', fits', got', gap') = laws.next_some ticks' key (n'.0) (n'.1) h e' in
            cc (got', missing_right (n'.0) fits' (laws.next_none ticks key (n'.0) h e lt' fits'))
      ]
      | inr (n, e) ↦
          let (lt, fits, got, gap) = laws.next_some ticks key (n.0) (n.1) h e in
          elim (Option-cases (store.next ticks' key)) [
            | inl e' ↦
                cc (got, missing_left (n.0) fits (laws.next_none ticks' key (n.0) h e' lt fits))
            | inr (n', e') ↦
                let (lt', fits', got', gap') = laws.next_some ticks' key (n'.0) (n'.1) h e' in
                elim (lt_or_ge (n.0) (n'.0)) [
                  | inl below ↦ cc (got, missing_left (n.0) fits (gap' (n.0) lt below))
                  | inr up ↦ elim (lt_or_ge (n'.0) (n.0)) [
                    | inl below ↦ cc (got', missing_right (n'.0) fits' (gap (n'.0) lt' below))
                    | inr down ↦
                        rw (e, e')
                          (found_both (n.0) (n'.0) (n.1) (n'.1) fits (omega arith) got got')
                  ]
                ]
          ]
    ]

    prev_alike :
        (key : ℕ)
        → key < key_bound
        → next_outline (store.prev ticks key) ≡ next_outline (store.prev ticks' key)
    prev_alike key h = elim (Option-cases (store.prev ticks key)) [
      | inl e ↦ elim (Option-cases (store.prev ticks' key)) [
        | inl e' ↦ rw (e, e')
        | inr (n', e') ↦
            let (lt', got', gap') = laws.prev_some ticks' key (n'.0) (n'.1) h e' in
            cc (got', missing_right (n'.0) (omega arith) (laws.prev_none ticks key (n'.0) h e lt'))
      ]
      | inr (n, e) ↦
          let (lt, got, gap) = laws.prev_some ticks key (n.0) (n.1) h e in
          elim (Option-cases (store.prev ticks' key)) [
            | inl e' ↦
                cc (got, missing_left (n.0) (omega arith) (laws.prev_none ticks' key (n.0) h e' lt))
            | inr (n', e') ↦
                let (lt', got', gap') = laws.prev_some ticks' key (n'.0) (n'.1) h e' in
                elim (lt_or_ge (n.0) (n'.0)) [
                  | inl below ↦ cc (got', missing_right (n'.0) (omega arith) (gap (n'.0) below lt'))
                  | inr up ↦ elim (lt_or_ge (n'.0) (n.0)) [
                    | inl below ↦ cc (got, missing_left (n.0) (omega arith) (gap' (n.0) below lt))
                    | inr down ↦
                        rw (e, e')
                          (found_both (n.0) (n'.0) (n.1) (n'.1) (omega arith) (omega arith) got
                            got')
                  ]
                ]
          ]
    ]

    pub next_initialized_tick-Alike :
        (key : ℕ) (zero_for_one : Bool)
        → key < key_bound
        → next_outline (next_initialized_tick store ticks key zero_for_one)
          ≡ next_outline (next_initialized_tick store ticks' key zero_for_one)
    unfolding next_initialized_tick
    next_initialized_tick-Alike key false h = next_alike key h
    next_initialized_tick-Alike key true h = elim (Option-cases (store.get ticks key)) [
      | inl e ↦ rw (e, missing_right key h e) (prev_alike key h)
      | inr (info, e) ↦ elim (Option-cases (store.get ticks' key)) [
        | inl e' ↦ cc (e, missing_left key h e')
        | inr (info', e') ↦ rw (e, e') (found_both key key info info' h refl e e')
      ]
    ]

    outline-with_inner :
        (g0 g1 : ℕ) (o : Option TickInfo) (info : TickInfo)
        → o ≡ some info
        → outline (with_inner (flip store g0 g1 info.inner) o) ≡ outline o
    outline-with_inner g0 g1 o info e = rw e

    pub cross_tick-Alike :
        (key g0 g1 : ℕ) (info : TickInfo)
        → key < key_bound
        → store.get ticks key ≡ some info
        → CrossAlike (observe_tick store ticks key g0 g1) (cross_tick store ticks' key g0 g1)
    unfolding observe_tick cross_tick update_initialized_tick
    cross_tick-Alike key g0 g1 info h e = elim (Option-cases (store.get ticks' key)) [
      | inl e' ↦ cc (e, missing_left key h e')
      | inr (info', e') ↦
          let outlines : outline (some info) ≡ outline (some info') =
            sym (ap outline e) ∙ alike.outline_eq key h ∙ ap outline e' in
          let nets : info'.inner.liquidity_net ≡ info.inner.liquidity_net = cc outlines in
          let inner = flip store g0 g1 info'.inner in
          record {
            after = ticks;
            after' = store.set_inner ticks' key inner;
            net = info.inner.liquidity_net;
            observed = rw e;
            crossed = rw e' (ap (λ (n : ℤ). ok (store.set_inner ticks' key inner, n)) nets);
            after_alike = record {
              is_spacing = alike.is_spacing;
              spacing_eq = alike.spacing_eq ∙ sym (laws.spacing_set_inner ticks' key inner);
              outline_eq = λ j hj.
                  rw (laws.get_set_inner ticks' key j inner h hj) (elim (Bool-cases (j == key)) [
                    | inr other ↦ rw other (alike.outline_eq j hj)
                    | inl same ↦
                        let at_key : j ≡ key = (==_iff j key).0 same in
                        let here : store.get ticks' j ≡ some info' =
                          ap (store.get ticks') at_key ∙ e' in
                        rw same (
                          alike.outline_eq j hj
                          ∙ sym (outline-with_inner g0 g1 (store.get ticks' j) info' here))
                  ]);
            };
          }
    ]
