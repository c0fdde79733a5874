-- ===== src/SwapLoop/Charge.antt =====
-- About `charge` and `turn`: what one turn of the loop does to the price, the amounts and the tick.
use rm_uniswap.Prelude.{
  ℕ, ◌+◌, ◌-◌, ◌^◌, ◌≤◌, ◌<◌, ◌≡◌, ◌⊎◌, inl, inr, refl, sym, ap, ◌∙◌, arith, Bool, true, false,
  some, if◌then◌else◌, Option-cases, Bool-cases, if_true, if_false, ◌==◌, ◌&&◌, leb, ltb,
}
use rm_uniswap.Prelude.Int.{ℤ, pos, abs, pos_part, neg_part, ltb_ℤ}
use rm_uniswap.Error.{
  ok_or-eq-ok, Result, ok, ok_or, >>=-eq-ok, ok_injective, Result-cases, liquidity_underflow,
}
use rm_uniswap.BalanceDelta.{wrapping_neg_i128}
use rm_uniswap.Fee.{SwapFee, get_fee}
use rm_uniswap.Fee.Protocol.{IsFee}
use rm_uniswap.Params.{SwapParamsInner}
use rm_uniswap.PoolState.{PoolState}
use rm_uniswap.SqrtPrice.{IsPrice}
use rm_uniswap.SwapLoop.{
  Boundary, Progress, fee, charge, turn, next_boundary, book_amounts, take_protocol_fee, grow_fees,
  checked_add_signed, tick_after, crossed, with_crossing, at_key, growth0, growth1,
}
use rm_uniswap.SwapLoop.Ends.{Orderly, IsBoundary, next_boundary-IsBoundary}
use rm_uniswap.SwapLoop.Step.{step_lem, Remaining, booked_lem}
use rm_uniswap.SwapMath.{SwapStep, compute_swap_step, get_sqrt_price_target}
use rm_uniswap.SwapMath.Spec.{Funded}
use rm_uniswap.TickMath.Range.{get_sqrt_price_at_tick-IsPrice}
use rm_uniswap.TickStore.{TickAccess}
use rm_uniswap.TickStore.Laws.{key_bound}

-- A price on the swap's side of the limit.
abbrev pub Within : Bool → ℕ → ℕ → Type 0
Within true limit price = limit ≤ price
Within false limit price = price ≤ limit

-- The target is the limit, or a boundary strictly on this side of it.
abbrev pub Short : Bool → ℕ → ℕ → Type 0
Short true limit price = limit < price
Short false limit price = price < limit

pub target-cases :
    (z : Bool) (price limit : ℕ)
    → (get_sqrt_price_target z price limit ≡ limit)
      ⊎ (get_sqrt_price_target z price limit ≡ price) × Short z limit price
target-cases true price limit = ground arith
target-cases false price limit = ground arith

-- Between a price within the limit and the target, prices are within the limit.
between_lem :
    (z : Bool) (p b limit l : ℕ) (s : SwapStep)
    → IsPrice p
    → IsPrice b
    → IsPrice limit
    → Within z limit p
    → Funded p (get_sqrt_price_target z b limit) l s
    → IsPrice s.sqrt_ratio_next_x96 × Within z limit s.sqrt_ratio_next_x96
between_lem true p b limit l s hp hb hl w (inl (d, f)) =
    (record { min_le = omega arith; le_max = omega arith }, omega arith)
between_lem true p b limit l s hp hb hl w (inr (d, f)) =
    (record { min_le = omega arith; le_max = omega arith }, omega arith)
between_lem false p b limit l s hp hb hl w (inl (d, f)) =
    (record { min_le = omega arith; le_max = omega arith }, omega arith)
between_lem false p b limit l s hp hb hl w (inr (d, f)) =
    (record { min_le = omega arith; le_max = omega arith }, omega arith)

target-IsPrice :
    (z : Bool) (b limit : ℕ) → IsPrice b → IsPrice limit → IsPrice (get_sqrt_price_target z b limit)
target-IsPrice true b limit hb hl = record { min_le = omega arith; le_max = omega arith }
target-IsPrice false b limit hb hl = record { min_le = omega arith; le_max = omega arith }

-- What the loop keeps.
pub record Valid (params : SwapParamsInner) (w : Progress) : Type 0 where
  pub price : IsPrice w.sqrt_price_x96
  pub fits : w.liquidity < 2 ^ 128
  pub remaining : Remaining params.amount_specified w.amount_specified_remaining w.amount_calculated
  pub within : Within params.zero_for_one params.sqrt_price_limit w.sqrt_price_x96

pub checked_add_signed_fits :
    (l : ℕ) (z : ℤ) (r : ℕ) → checked_add_signed l z ≡ some r → r < 2 ^ 128
checked_add_signed_fits l z r e =
    elim (Bool-cases
      (leb (neg_part z) (l + pos_part z) && ltb (l + pos_part z - neg_part z) (2 ^ 128))) [
        | inl t ↦ ground arith
        | inr f ↦ cc (rw f at e)
      ]

module _ (A : TickAccess) (spacing : ℕ) (fees : SwapFee) (params : SwapParamsInner)
    (start : PoolState) where
  open params use {zero_for_one, amount_specified, sqrt_price_limit}

  -- A turn's step keeps what the loop keeps, leaves tick and liquidity, and ends on the target or with
  -- the amount used up.
  pub charge_lem :
      (b : Boundary) (w w' : Progress)
      → IsPrice sqrt_price_limit
      → IsFee (fee A spacing fees params start)
      → IsBoundary zero_for_one w.tick b
      → Valid params w
      → 0 < w.liquidity
      → 0 < abs w.amount_specified_remaining
      → abs w.amount_specified_remaining ≤ 2 ^ 255
      → charge A spacing fees params start b w ≡ ok w'
      → Valid params w'
        × (w'.tick ≡ w.tick)
        × ((w'.sqrt_price_x96
              ≡ get_sqrt_price_target zero_for_one b.sqrt_price_x96 sqrt_price_limit)
            ⊎ (abs w'.amount_specified_remaining ≡ 0))
  unfolding charge
  charge_lem b w w' hl hf hb v positive left small e =
      let target = get_sqrt_price_target zero_for_one b.sqrt_price_x96 sqrt_price_limit in
      let f = fee A spacing fees params start in
      let (s, es, next0) =
        >>=-eq-ok
          (compute_swap_step w.sqrt_price_x96 target w.liquidity w.amount_specified_remaining f) _
          e in
      let (booked, eb, next1) =
        >>=-eq-ok
          (book_amounts (ltb_ℤ (pos 0) amount_specified) s w.amount_specified_remaining
            w.amount_calculated)
          _ next0 in
      let (split, et, next2) =
        >>=-eq-ok
          (take_protocol_fee (get_fee fees.protocol_fee zero_for_one) f s w.amount_to_protocol) _
          next1 in
      let (growth, eg, built) =
        >>=-eq-ok (grow_fees w.fee_growth_global_x128 (split.0) w.liquidity) _ next2 in
      let b_price : IsPrice b.sqrt_price_x96 =
        rw hb.price (get_sqrt_price_at_tick-IsPrice b.tick_index hb.in_range) in
      let t_price = target-IsPrice zero_for_one b.sqrt_price_x96 sqrt_price_limit b_price hl in
      let (funded, books) =
        step_lem w.sqrt_price_x96 target w.liquidity w.amount_specified_remaining f s v.price
          t_price (record { positive = positive; fits = v.fits }) hf left small es in
      let (price, within) =
        between_lem zero_for_one w.sqrt_price_x96 b.sqrt_price_x96 sqrt_price_limit w.liquidity s
          v.price b_price hl v.within funded in
      let (remaining, ends) =
        booked_lem amount_specified w.amount_specified_remaining w.amount_calculated (booked.0)
          (booked.1) target f s v.remaining left books eb in
      rw (sym (ok_injective built)) (
        record { price = price; fits = v.fits; remaining = remaining; within = within },
        refl,
        ends,
      )

  -- What a successful turn is: a charge, a crossing that the store allowed, and the new tick.
  pub record Turned (P : A.Ticks → Type 0) (b : Boundary) (w : Progress) (ticks' : A.Ticks)
      (w'' : Progress) : Type 0 where
    pub w' : Progress
    pub charge_eq : charge A spacing fees params start b w ≡ ok w'
    pub kept : P ticks'
    pub fits : w'.liquidity < 2 ^ 128 → w''.liquidity < 2 ^ 128
    pub tick_eq : w''.tick ≡ tick_after A spacing fees params start b w.sqrt_price_x96 w'
    pub price_eq : w''.sqrt_price_x96 ≡ w'.sqrt_price_x96
    pub remaining_eq : w''.amount_specified_remaining ≡ w'.amount_specified_remaining
    pub calculated_eq : w''.amount_calculated ≡ w'.amount_calculated

  module _ (P : A.Ticks → Type 0) (orderly : Orderly A P) where
    crossed-Turned :
        (b : Boundary) (w w' w'' : Progress) (ticks' : A.Ticks) (net : ℤ)
        → charge A spacing fees params start b w ≡ ok w'
        → P ticks'
        → crossed A spacing fees params start b w.sqrt_price_x96 w' net ≡ ok w''
        → Turned P b w ticks' w''
    crossed-Turned b w w' w'' ticks' net c p e =
        let signed = if zero_for_one then wrapping_neg_i128 net else net in
        let (l, el, built) =
          >>=-eq-ok (ok_or (checked_add_signed w'.liquidity signed) liquidity_underflow) _ e in
        rw (sym (ok_injective built)) (record {
          w' = w';
          charge_eq = c;
          kept = p;
          fits = λ h.
              checked_add_signed_fits w'.liquidity signed l
                (ok_or-eq-ok (checked_add_signed w'.liquidity signed) liquidity_underflow el);
          tick_eq = refl;
          price_eq = refl;
          remaining_eq = refl;
          calculated_eq = refl;
        })

    still-Turned :
        (b : Boundary) (w w' w'' : Progress) (ticks ticks' : A.Ticks)
        → charge A spacing fees params start b w ≡ ok w'
        → P ticks
        → ◌≡◌ {A = A.Ticks × Result Progress}
            (
              ticks,
              ok (record w' {
                tick = tick_after A spacing fees params start b w.sqrt_price_x96 w';
              }),
            )
            (ticks', ok w'')
        → Turned P b w ticks' w''
    still-Turned b w w' w'' ticks ticks' c p e =
        let same : ticks ≡ ticks' = ap (λ (r : A.Ticks × Result Progress). r.0) e in
        let built = ok_injective (ap (λ (r : A.Ticks × Result Progress). r.1) e) in
        rw (sym built, sym same)
          (record {
            w' = w';
            charge_eq = c;
            kept = p;
            fits = λ h. h;
            tick_eq = refl;
            price_eq = refl;
            remaining_eq = refl;
            calculated_eq = refl;
          })

    crossing-Turned :
        (b : Boundary) (w w' w'' : Progress) (ticks ticks' : A.Ticks) (key : ℕ)
        → charge A spacing fees params start b w ≡ ok w'
        → P ticks
        → key < key_bound
        → with_crossing A spacing fees params start ticks b w.sqrt_price_x96 w' (
            A.cross_tick ticks key
              (growth0 A spacing fees params start w')
              (growth1 A spacing fees params start w'))
          ≡ (ticks', ok w'')
        → Turned P b w ticks' w''
    crossing-Turned b w w' w'' ticks ticks' key c p k e =
        elim (Result-cases (
          A.cross_tick ticks key (growth0 A spacing fees params start w')
            (growth1 A spacing fees params start w'))) [
              | inl (r, er) ↦
                  let e' = rw er at e in
                  let same : r.0 ≡ ticks' = ap (λ (q : A.Ticks × Result Progress). q.0) e' in
                  crossed-Turned b w w' w'' ticks' (r.1) c
                    (rw (sym same) (orderly.cross_lem ticks (r.0) key _ _ (r.1) p k er))
                    (ap (λ (q : A.Ticks × Result Progress). q.1) e')
              | inr (x, er) ↦ cc (ap (λ (q : A.Ticks × Result Progress). q.1) (rw er at e))
            ]

    keyed-Turned :
        (b : Boundary) (w w' w'' : Progress) (ticks ticks' : A.Ticks) (key : ℕ)
        → charge A spacing fees params start b w ≡ ok w'
        → P ticks
        → key < key_bound
        → at_key A spacing fees params start ticks b w.sqrt_price_x96 w' (some key)
          ≡ (ticks', ok w'')
        → Turned P b w ticks' w''
    keyed-Turned b w w' w'' ticks ticks' key c p k e =
        elim (Bool-cases (w'.sqrt_price_x96 == b.sqrt_price_x96)) [
          | inl reached ↦
              crossing-Turned b w w' w'' ticks ticks' key c p k (sym (if_true _ _ _ reached) ∙ e)
          | inr short ↦ still-Turned b w w' w'' ticks ticks' c p (sym (if_false _ _ _ short) ∙ e)
        ]

    pub turn-Turned :
        (ticks ticks' : A.Ticks) (w w'' : Progress)
        → P ticks
        → abs w.tick ≤ 887272
        → 0 < spacing
        → turn A spacing fees params start ticks w ≡ (ticks', ok w'')
        → Turned P (next_boundary A spacing fees params start ticks w.tick) w ticks' w''
    unfolding turn
    turn-Turned ticks ticks' w w'' p h s e =
        let b = next_boundary A spacing fees params start ticks w.tick in
        let hb =
          next_boundary-IsBoundary A spacing fees params start P orderly ticks w.tick p h s in
        elim (Result-cases (charge A spacing fees params start b w)) [
          | inr (x, c) ↦ cc (ap (λ (q : A.Ticks × Result Progress). q.1) (rw c at e))
          | inl (w', c) ↦
              let e' = rw c at e in
              elim (Option-cases b.key) [
                | inl k ↦ still-Turned b w w' w'' ticks ticks' c p (rw k at e')
                | inr (key, k) ↦
                    keyed-Turned b w w' w'' ticks ticks' key c p (hb.keyed key k) (rw k at e')
              ]
        ]
