-- ===== src/Pool/Ticks.antt =====
-- About `update_tick`: what a change of liquidity writes at a boundary, and that it keeps the store.
use rm_uniswap.Prelude.{
  ℕ, ◌+◌, ◌-◌, ◌^◌, ◌≤◌, ◌<◌, ◌≡◌, ◌⊎◌, inl, inr, refl, sym, ap, ◌∙◌, arith, Bool, true, false,
  Option, none, some, if◌then◌else◌, Option-cases, Bool-cases, ◌==◌, ◌&&◌, if_true, if_false,
  ==_iff, ltb, leb,
}
use rm_uniswap.Prelude.Int.{ℤ, pos, negsuc, abs, pos_part, neg_part, ◌+ℤ◌, ◌-ℤ◌, ltb_ℤ, leb_ℤ}
use rm_uniswap.BalanceDelta.{fit_i128}
use rm_uniswap.Error.{
  Result, ok, ok_or, ok_or-eq-ok, >>=-eq-ok, ok_injective, Result-cases, i128_overflow,
}
use rm_uniswap.Pool.{update_tick, changed_liquidity, write_tick, written}
use rm_uniswap.PoolState.{PoolState}
use rm_uniswap.SwapLoop.{checked_add_signed}
use rm_uniswap.SwapLoop.Ticks.{Coherent, IsStored, set_inner-Coherent}
use rm_uniswap.TickInfo.{TickInfo, TickInfoInner, new_info}
use rm_uniswap.TickKey.{from_tick, for_spacing}
use rm_uniswap.TickKey.Key.{IsSpacing, from_tick_lt}
use rm_uniswap.TickMath.{get_sqrt_price_at_tick}
use rm_uniswap.TickStore.{TickStore, indexer, update_initialized_tick}
use rm_uniswap.TickStore.Laws.{StoreLaws, key_bound, with_inner}

-- Gross and net liquidity at a key; a missing tick has none.
abbrev pub gross_of : Option TickInfo → ℕ
gross_of none = 0
gross_of (some info) = info.inner.liquidity_gross

abbrev pub net_of : Option TickInfo → ℤ
net_of none = pos 0
net_of (some info) = info.inner.liquidity_net

-- The net liquidity after a change at a lower or at an upper boundary.
abbrev pub net_after : Bool → ℤ → ℤ → ℤ
net_after upper net delta = if upper then net -ℤ delta else net +ℤ delta

pub checked_add_signed-some :
    (l : ℕ) (z : ℤ) (r : ℕ) → checked_add_signed l z ≡ some r → r + neg_part z ≡ l + pos_part z
checked_add_signed-some l z r e =
    elim (Bool-cases
      (leb (neg_part z) (l + pos_part z) && ltb (l + pos_part z - neg_part z) (2 ^ 128))) [
        | inl t ↦ ground arith
        | inr f ↦ cc (rw f at e)
      ]

fit_i128-some : (z r : ℤ) → fit_i128 z ≡ some r → r ≡ z
fit_i128-some z r e =
    elim (Bool-cases (leb_ℤ (negsuc (2 ^ 127 - 1)) z && ltb_ℤ z (pos (2 ^ 127)))) [
      | inl fits ↦ cc (rw fits at e)
      | inr wide ↦ cc (rw wide at e)
    ]

module _ (store : TickStore) where
  changed_liquidity_lem :
      (ticks : store.Ticks) (inner : TickInfoInner) (delta : ℤ) (upper : Bool) (gross : ℕ) (net : ℤ)
      → changed_liquidity store ticks inner delta upper ≡ ok (gross, net)
      → (gross + neg_part delta ≡ inner.liquidity_gross + pos_part delta)
        × (net ≡ net_after upper inner.liquidity_net delta)
  unfolding changed_liquidity
  changed_liquidity_lem ticks inner delta upper gross net e =
      let (g, eg, e1) =
        >>=-eq-ok (ok_or (checked_add_signed inner.liquidity_gross delta) i128_overflow) _ e in
      let after = net_after upper inner.liquidity_net delta in
      let total =
        checked_add_signed-some inner.liquidity_gross delta g
          (ok_or-eq-ok (checked_add_signed inner.liquidity_gross delta) i128_overflow eg) in
      elim (Bool-cases (ltb_ℤ (pos 0) delta && ltb (store.max_liquidity_per_tick ticks) g)) [
        | inl over ↦ cc (rw over at e1)
        | inr within ↦
            let (n, en, e2) =
              >>=-eq-ok (ok_or (fit_i128 after) i128_overflow) _ (rw within at e1) in
            let pair = ok_injective e2 in
            let same_g : g ≡ gross = ap (λ (q : ℕ × ℤ). q.0) pair in
            let same_n : n ≡ net = ap (λ (q : ℕ × ℤ). q.1) pair in
            (
              omega arith,
              sym same_n ∙ fit_i128-some after n (ok_or-eq-ok (fit_i128 after) i128_overflow en),
            )
      ]

  -- A change at one key: the amounts there, no tick without gross liquidity, and all else as it was.
  pub record Changed (ticks ticks' : store.Ticks) (key : ℕ) (delta : ℤ) (upper : Bool)
      : Type 0 where
    pub gross :
        gross_of (store.get ticks' key) + neg_part delta
        ≡ gross_of (store.get ticks key) + pos_part delta
    pub net :
        (store.get ticks' key ≡ none)
        ⊎ (net_of (store.get ticks' key) ≡ net_after upper (net_of (store.get ticks key)) delta)
    pub no_empty : gross_of (store.get ticks' key) ≡ 0 → store.get ticks' key ≡ none
    pub others :
        (j : ℕ) → j < key_bound → (j == key) ≡ false → store.get ticks' j ≡ store.get ticks j

  module _ (laws : StoreLaws store) (spacing : ℕ) (is_spacing : IsSpacing spacing) where
    new_info-IsStored :
        (tick : ℤ)
        → abs tick ≤ 887272
        → for_spacing tick spacing ≡ true
        → IsStored spacing (from_tick tick spacing) (new_info tick (get_sqrt_price_at_tick tick))
    new_info-IsStored tick h a = record { in_range = h; aligned = a; price = refl; own_key = refl }

    -- A new tick under its own key keeps the store in order.
    insert-Coherent :
        (ticks ticks' : store.Ticks) (tick : ℤ)
        → abs tick ≤ 887272
        → for_spacing tick spacing ≡ true
        → Coherent store laws spacing is_spacing ticks
        → store.insert ticks (from_tick tick spacing) (new_info tick (get_sqrt_price_at_tick tick))
          ≡ ok ticks'
        → Coherent store laws spacing is_spacing ticks'
    insert-Coherent ticks ticks' tick h a c e =
        let key = from_tick tick spacing in
        let info = new_info tick (get_sqrt_price_at_tick tick) in
        let bound = from_tick_lt tick spacing is_spacing in
        record {
          spacing_eq = laws.spacing_insert ticks ticks' key info e ∙ c.spacing_eq;
          stored = λ j found hj got.
              let at = laws.get_insert ticks ticks' key j info bound hj e in
              elim (Bool-cases (j == key)) [
                | inr other ↦ c.stored j found hj (sym (if_false _ _ _ other) ∙ sym at ∙ got)
                | inl same ↦
                    let here : some info ≡ some found = sym (if_true _ _ _ same) ∙ sym at ∙ got in
                    let infos : info ≡ found = cc here in
                    let keys : j ≡ key = (==_iff j key).0 same in
                    rw (keys, sym infos) (new_info-IsStored tick h a)
              ];
        }

    remove-Coherent :
        (ticks : store.Ticks) (key : ℕ)
        → key < key_bound
        → Coherent store laws spacing is_spacing ticks
        → Coherent store laws spacing is_spacing (store.remove ticks key)
    remove-Coherent ticks key h c = record {
      spacing_eq = laws.spacing_remove ticks key ∙ c.spacing_eq;
      stored = λ j found hj got.
          let at = laws.get_remove ticks key j h hj in
          elim (Bool-cases (j == key)) [
            | inr other ↦ c.stored j found hj (sym (if_false _ _ _ other) ∙ sym at ∙ got)
            | inl same ↦ cc (sym (if_true _ _ _ same) ∙ sym at ∙ got)
          ];
    }

    key_refl : (k : ℕ) → (k == k) ≡ true
    key_refl k = (==_iff k k).1 refl

    -- The write of an initialized tick.
    write_tick-Changed :
        (s : PoolState) (ticks ticks' : store.Ticks) (key : ℕ) (tick : ℤ) (before : TickInfo)
        (delta : ℤ) (upper : Bool) (r : ℕ × ℕ × ℕ)
        → key < key_bound
        → store.get ticks key ≡ some before
        → Coherent store laws spacing is_spacing ticks
        → write_tick store s ticks key tick before
            (changed_liquidity store ticks before.inner delta upper)
          ≡ (ticks', ok r)
        → Coherent store laws spacing is_spacing ticks' × Changed ticks ticks' key delta upper
    unfolding update_initialized_tick
    write_tick-Changed s ticks ticks' key tick before delta upper r h got c e =
        elim (Result-cases (changed_liquidity store ticks before.inner delta upper)) [
          | inr (x, refused) ↦
              cc (ap (λ (q : store.Ticks × Result (ℕ × ℕ × ℕ)). q.1) (rw refused at e))
          | inl (change, done) ↦
              let (total, net) =
                changed_liquidity_lem ticks before.inner delta upper (change.0) (change.1) done in
              let e' = rw done at e in
              elim (Bool-cases (change.0 == 0)) [
                | inl gone ↦
                    let same : store.remove ticks key ≡ ticks' =
                      ap (λ (q : store.Ticks × Result (ℕ × ℕ × ℕ)). q.0) (rw gone at e') in
                    let none_here : store.get (store.remove ticks key) key ≡ none =
                      laws.get_remove ticks key key h h ∙ if_true _ _ _ (key_refl key) in
                    let zero_gross : change.0 ≡ 0 = (==_iff (change.0) 0).0 gone in
                    rw (sym same) (
                      remove-Coherent ticks key h c,
                      record {
                        gross = rw (none_here, got) (omega arith);
                        net = inl none_here;
                        no_empty = λ z. none_here;
                        others =
                            λ j hj other. laws.get_remove ticks key j h hj ∙ if_false _ _ _ other;
                      },
                    )
                | inr kept ↦
                    let inner =
                      written store s tick (before.inner.liquidity_gross == 0) change
                        before.inner in
                    let e'' = rw (kept, got) at e' in
                    let same : store.set_inner ticks key inner ≡ ticks' =
                      ap (λ (q : store.Ticks × Result (ℕ × ℕ × ℕ)). q.0) e'' in
                    let here : store.get (store.set_inner ticks key inner) key
                        ≡ some (record before { inner = inner }) =
                      laws.get_set_inner ticks key key inner h h
                      ∙ if_true _ _ _ (key_refl key)
                      ∙ ap (with_inner inner) got in
                    rw (sym same) (
                      set_inner-Coherent store laws spacing is_spacing ticks key inner h c,
                      record {
                        gross = rw (here, got) total;
                        net = inr (rw (here, got) net);
                        no_empty = λ z.
                            let empty : change.0 ≡ 0 = sym (ap gross_of here) ∙ z in
                            cc ((==_iff (change.0) 0).1 empty, kept);
                        others = λ j hj other.
                            laws.get_set_inner ticks key j inner h hj ∙ if_false _ _ _ other;
                      },
                    )
              ]
        ]

    -- A change of the inserted tick is a change of the missing one.
    inserted-Changed :
        (ticks ticks1 ticks' : store.Ticks) (key : ℕ) (info : TickInfo) (delta : ℤ) (upper : Bool)
        → key < key_bound
        → store.get ticks key ≡ none
        → store.insert ticks key info ≡ ok ticks1
        → info.inner.liquidity_gross ≡ 0
        → info.inner.liquidity_net ≡ pos 0
        → Changed ticks1 ticks' key delta upper
        → Changed ticks ticks' key delta upper
    inserted-Changed ticks ticks1 ticks' key info delta upper h missing e gross0 net0 ch =
        let here : store.get ticks1 key ≡ some info =
          laws.get_insert ticks ticks1 key key info h h e ∙ if_true _ _ _ (key_refl key) in
        let gross_eq : gross_of (store.get ticks1 key) ≡ gross_of (store.get ticks key) =
          ap gross_of here ∙ gross0 ∙ sym (ap gross_of missing) in
        let net_eq : net_of (store.get ticks1 key) ≡ net_of (store.get ticks key) =
          ap net_of here ∙ net0 ∙ sym (ap net_of missing) in
        record {
          gross = omega (arith, ch.gross, gross_eq);
          net = elim ch.net [
            | inl gone ↦ inl gone
            | inr new ↦ inr (new ∙ ap (λ (z : ℤ). net_after upper z delta) net_eq)
          ];
          no_empty = ch.no_empty;
          others = λ j hj other.
              ch.others j hj other
              ∙ laws.get_insert ticks ticks1 key j info h hj e
              ∙ if_false _ _ _ other;
        }

    -- For ticks in order, an aligned tick of at most 887272 in magnitude and an update that
    -- succeeds: the ticks stay in order; the gross liquidity at the key has changed by the amount,
    -- the net liquidity by the amount at a lower and by its negation at an upper boundary, or the
    -- tick is gone; no tick without gross liquidity is left there, and every other key is as it was.
    pub update_tick-Changed :
        (s : PoolState) (ticks ticks' : store.Ticks) (tick delta : ℤ) (upper : Bool) (r : ℕ × ℕ × ℕ)
        → abs tick ≤ 887272
        → for_spacing tick spacing ≡ true
        → Coherent store laws spacing is_spacing ticks
        → update_tick store s ticks tick delta upper ≡ (ticks', ok r)
        → Coherent store laws spacing is_spacing ticks'
          × Changed ticks ticks' (from_tick tick spacing) delta upper
    unfolding update_tick indexer
    update_tick-Changed s ticks ticks' tick delta upper r ht a c e0 =
        let e = rw c.spacing_eq at e0 in
        let key = from_tick tick spacing in
        let h = from_tick_lt tick spacing is_spacing in
        elim (Option-cases (store.get ticks key)) [
          | inr (info, got) ↦
              write_tick-Changed s ticks ticks' key tick info delta upper r h got c (rw got at e)
          | inl missing ↦
              let info = new_info tick (get_sqrt_price_at_tick tick) in
              let e' = rw missing at e in
              elim (Result-cases (store.insert ticks key info)) [
                | inr (x, refused) ↦
                    cc (ap (λ (q : store.Ticks × Result (ℕ × ℕ × ℕ)). q.1) (rw refused at e'))
                | inl (ticks1, done) ↦
                    let here : store.get ticks1 key ≡ some info =
                      laws.get_insert ticks ticks1 key key info h h done
                      ∙ if_true _ _ _ (key_refl key) in
                    let (c', ch) =
                      write_tick-Changed s ticks1 ticks' key tick info delta upper r h here
                        (insert-Coherent ticks ticks1 tick ht a c done) (rw done at e') in
                    (
                      c',
                      inserted-Changed ticks ticks1 ticks' key info delta upper h missing done refl
                          refl ch,
                    )
              ]
        ]
