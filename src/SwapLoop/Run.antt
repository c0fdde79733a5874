-- ===== src/SwapLoop/Run.antt =====
-- About the loop: it ends within its fuel, and what it ends with.
use rm_uniswap.Prelude.{
  ℕ, zero, suc, ◌+◌, ◌-◌, ◌^◌, ◌≤◌, ◌<◌, ◌≡◌, ◌⊎◌, inl, inr, refl, sym, ap, ◌∙◌, arith, Bool, true,
  false, Option, some, if◌then◌else◌, if_true, lt_or_ge, Bool-cases, ◌==◌, ==_iff,
}
use rm_uniswap.Prelude.Int.{
  ℤ, pos, negsuc, abs, pos_part, neg_part, ◌<ℤ◌, ◌-ℤ◌, -ℤ_parts, parts_disjoint, eq_of_parts,
}
use rm_uniswap.Error.{Result, ok, err, ok_injective}
use rm_uniswap.Fee.{SwapFee}
use rm_uniswap.Fee.Protocol.{IsFee}
use rm_uniswap.Params.{SwapParamsInner}
use rm_uniswap.PoolState.{PoolState}
use rm_uniswap.SqrtPrice.{IsPrice}
use rm_uniswap.SwapLoop.{Boundary, Progress, fee, turn, next_boundary, finished, swap_loop, go_on}
use rm_uniswap.SwapLoop.Charge.{Valid, Short, turn-Turned, charge_lem, target-cases}
use rm_uniswap.SwapLoop.Ends.{Orderly, IsBoundary, next_boundary-IsBoundary}
use rm_uniswap.SwapLoop.Step.{Remaining}
use rm_uniswap.TickMath.{get_sqrt_price_at_tick}
use rm_uniswap.TickMath.Range.{min_tick_price, max_tick_price}
use rm_uniswap.TickStore.{TickAccess}

-- Strictly on, in the direction of the swap.
abbrev pub Moved : Bool → ℤ → ℤ → Type 0
Moved true t t' = t' <ℤ t
Moved false t t' = t <ℤ t'

-- The ticks ahead of one, plus one.
abbrev pub room : Bool → ℤ → ℕ
room true t = 887273 + pos_part t - neg_part t
room false t = 887273 + neg_part t - pos_part t

at_min : (z : ℤ) → abs z ≤ 887272 → 887272 ≤ neg_part z → z ≡ negsuc 887271
at_min z h k = eq_of_parts z (negsuc 887271) (omega arith)

above_min :
    (b : Boundary) (limit : ℕ) {tick : ℤ}
    → IsPrice limit
    → IsBoundary true tick b
    → limit < b.sqrt_price_x96
    → neg_part b.tick_index < 887272
above_min b limit hl hb short = elim (lt_or_ge (neg_part b.tick_index) 887272) [
  | inl lt ↦ lt
  | inr ge ↦
      let last = at_min b.tick_index hb.in_range ge in
      absurd (omega (arith, short, hl, hb.price ∙ ap get_sqrt_price_at_tick last ∙ min_tick_price))
]

-- A boundary whose price is short of the limit is not the last tick, so the tick moves on.
reached_lem :
    (z : Bool) (tick : ℤ) (b : Boundary) (limit : ℕ)
    → IsPrice limit
    → abs tick ≤ 887272
    → IsBoundary z tick b
    → Short z limit b.sqrt_price_x96
    → (abs (if z then b.tick_index -ℤ pos 1 else b.tick_index) ≤ 887272)
      × Moved z tick (if z then b.tick_index -ℤ pos 1 else b.tick_index)
reached_lem true tick b limit hl ht hb short =
    let above = above_min b limit hl hb short in
    (
      omega (
        arith,
        hb,
        -ℤ_parts b.tick_index (pos 1),
        parts_disjoint (b.tick_index -ℤ pos 1),
        parts_disjoint b.tick_index,
      ),
      omega (arith, hb, -ℤ_parts b.tick_index (pos 1)),
    )
reached_lem false tick b limit hl ht hb short = (
  hb.in_range,
  elim hb.forward [
    | inl ahead ↦ ahead
    | inr last ↦
        absurd
          (omega (arith, short, hl, hb.price ∙ ap get_sqrt_price_at_tick last ∙ max_tick_price))
  ],
)

Remaining-small : (amount r c : ℤ) → abs amount ≤ 2 ^ 255 → Remaining amount r c → abs r ≤ 2 ^ 255
Remaining-small (pos a) r c h m = omega arith
Remaining-small (negsuc n) r c h m = omega arith

nonzero : (n : ℕ) → (n == 0) ≡ false → 0 < n
nonzero n h = ground arith

module _ (A : TickAccess) (spacing : ℕ) (fees : SwapFee) (params : SwapParamsInner)
    (start : PoolState) where
  open params use {zero_for_one, amount_specified, sqrt_price_limit}

  -- Where a turn has used the amount up or come to the limit.
  abbrev Ended : Progress → Type 0
  Ended w = (abs w.amount_specified_remaining ≡ 0) ⊎ (w.sqrt_price_x96 ≡ sqrt_price_limit)

  Ended-finished : (w : Progress) → Ended w → finished A spacing fees params start w ≡ true
  Ended-finished w (inl e) = ground arith
  Ended-finished w (inr e) = ground arith

  -- What the loop's test says.
  unfinished_lem :
      (w : Progress)
      → finished A spacing fees params start w ≡ false
      → (0 < abs w.amount_specified_remaining) × (0 < w.liquidity)
  unfinished_lem w e = ground arith

  module _ (P : A.Ticks → Type 0) (orderly : Orderly A P) (spacing_pos : 0 < spacing)
      (limit_price : IsPrice sqrt_price_limit) (is_fee : IsFee (fee A spacing fees params start))
      (small : abs amount_specified ≤ 2 ^ 255) where
    -- A turn keeps the invariant, and ends the loop or moves the tick on.
    pub turn_lem :
        (ticks ticks' : A.Ticks) (w w'' : Progress)
        → P ticks
        → Valid params w
        → abs w.tick ≤ 887272
        → finished A spacing fees params start w ≡ false
        → turn A spacing fees params start ticks w ≡ (ticks', ok w'')
        → P ticks'
          × Valid params w''
          × (Ended w'' ⊎ (abs w''.tick ≤ 887272) × Moved zero_for_one w.tick w''.tick)
    turn_lem ticks ticks' w w'' p v h unfinished e =
        let b = next_boundary A spacing fees params start ticks w.tick in
        let hb =
          next_boundary-IsBoundary A spacing fees params start P orderly ticks w.tick p h
            spacing_pos in
        let turned =
          turn-Turned A spacing fees params start P orderly ticks ticks' w w'' p h spacing_pos e in
        let (left, positive) = unfinished_lem w unfinished in
        let w' = turned.w' in
        let (v', tick', ends) =
          charge_lem A spacing fees params start b w w' limit_price is_fee hb v positive left
            (Remaining-small amount_specified w.amount_specified_remaining w.amount_calculated small
              v.remaining)
            turned.charge_eq in
        let valid : Valid params w'' = record {
          price = rw turned.price_eq v'.price;
          fits = turned.fits v'.fits;
          remaining = rw (turned.remaining_eq, turned.calculated_eq) v'.remaining;
          within = rw turned.price_eq v'.within;
        } in
        (
          turned.kept,
          valid,
          elim ends [
            | inr used ↦ inl (inl (ap abs turned.remaining_eq ∙ used))
            | inl there ↦ elim (target-cases zero_for_one b.sqrt_price_x96 sqrt_price_limit) [
              | inl limit ↦ inl (inr (turned.price_eq ∙ there ∙ limit))
              | inr (boundary, short) ↦
                  let at_boundary : (w'.sqrt_price_x96 == b.sqrt_price_x96) ≡ true =
                    (==_iff w'.sqrt_price_x96 b.sqrt_price_x96).1 (there ∙ boundary) in
                  let new_tick = turned.tick_eq ∙ if_true _ _ _ at_boundary in
                  inr (
                    rw new_tick
                      (reached_lem zero_for_one w.tick b sqrt_price_limit limit_price h hb short))
            ]
          ],
        )

    -- How a run ends: with an error, or with the invariant and the loop's test met.
    pub record Ends (r : A.Ticks × Option (Result Progress)) : Type 0 where
      pub outcome : Result Progress
      pub outcome_eq : r.1 ≡ some outcome
      pub done :
          (w : Progress)
          → outcome ≡ ok w
          → Valid params w × (finished A spacing fees params start w ≡ true)

    abbrev pub Enough : ℕ → Progress → Type 0
    Enough fuel w =
        (finished A spacing fees params start w ≡ true) × (0 < fuel)
        ⊎ (abs w.tick ≤ 887272) × (room zero_for_one w.tick < fuel)

    enough_lem : (fuel : ℕ) (z : Bool) (t : ℤ) → abs t ≤ 887272 → room z t < suc fuel → 0 < fuel
    enough_lem fuel true t h m = omega (arith, parts_disjoint t)
    enough_lem fuel false t h m = omega (arith, parts_disjoint t)

    moved_lem :
        (fuel : ℕ) (z : Bool) (t t' : ℤ)
        → abs t ≤ 887272
        → abs t' ≤ 887272
        → room z t < suc fuel
        → Moved z t t'
        → room z t' < fuel
    moved_lem fuel true t t' h h' m mv = omega (arith, parts_disjoint t, parts_disjoint t')
    moved_lem fuel false t t' h h' m mv = omega (arith, parts_disjoint t, parts_disjoint t')

    go_on-Ends :
        (rest : A.Ticks → Progress → A.Ticks × Option (Result Progress))
        (r : A.Ticks × Result Progress)
        → ((w : Progress) → r.1 ≡ ok w → Ends (rest (r.0) w))
        → Ends (go_on A spacing fees params start rest r)
    go_on-Ends rest (ticks, ok w) after = after w refl
    go_on-Ends rest (ticks, err e) after = record {
      outcome = err e;
      outcome_eq = refl;
      done = λ w h. cc;
    }

    -- After a turn that did not end the loop, less fuel is enough.
    Enough-after :
        (fuel : ℕ) (w w'' : Progress)
        → abs w.tick ≤ 887272
        → room zero_for_one w.tick < suc fuel
        → Ended w'' ⊎ (abs w''.tick ≤ 887272) × Moved zero_for_one w.tick w''.tick
        → Enough fuel w''
    Enough-after fuel w w'' h m (inl ended) =
        inl (Ended-finished w'' ended, enough_lem fuel zero_for_one w.tick h m)
    Enough-after fuel w w'' h m (inr (h', moved)) =
        inr (h', moved_lem fuel zero_for_one w.tick w''.tick h h' m moved)

    -- The loop needs no more fuel than there are ticks ahead.
    pub swap_loop-Ends :
        (fuel : ℕ) (ticks : A.Ticks) (w : Progress)
        → P ticks
        → Valid params w
        → Enough fuel w
        → Ends (swap_loop A spacing fees params start fuel ticks w)
    unfolding swap_loop
    swap_loop-Ends zero ticks w p v (inl (f, m)) = absurd (omega arith)
    swap_loop-Ends zero ticks w p v (inr (f, m)) = absurd (omega arith)
    swap_loop-Ends (suc fuel) ticks w p v enough =
        elim (Bool-cases (finished A spacing fees params start w)) [
          | inl f ↦
              rw (f, swap_loop)
                (record {
                  outcome = ok w;
                  outcome_eq = refl;
                  done = λ w' e. rw (sym (ok_injective e)) (v, f);
                })
          | inr unfinished ↦
              rw (unfinished, swap_loop)
                (go_on-Ends (swap_loop A spacing fees params start fuel)
                  (turn A spacing fees params start ticks w)
                  λ w'' e. elim enough [
                    | inl (f, m) ↦ cc
                    | inr (h, m) ↦
                        let t = turn A spacing fees params start ticks w in
                        let (p', v', ahead) =
                          turn_lem ticks (t.0) w w'' p v h unfinished
                            (ap (λ (x : Result Progress). (t.0, x)) e) in
                        swap_loop-Ends fuel (t.0) w'' p' v' (Enough-after fuel w w'' h m ahead)
                  ])
        ]
