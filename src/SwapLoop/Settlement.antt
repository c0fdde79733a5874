-- ===== src/SwapLoop/Settlement.antt =====
-- About `swap_inner`: it returns, and what a swap that succeeds has settled.
use rm_uniswap.Prelude.{
  ℕ, suc, ◌-◌, ◌^◌, ◌≤◌, ◌<◌, ◌≡◌, ◌⊎◌, inl, inr, refl, sym, ap, ◌∙◌, arith, Bool, true, false,
  some, if◌then◌else◌, Bool-cases, ◌&&◌, leb, pos_nonzero,
}
use rm_uniswap.Prelude.Int.{
  ℤ, pos, negsuc, abs, pos_part, neg_part, ltb_ℤ, leb_ℤ, ◌-ℤ◌, -ℤ_parts, parts_disjoint,
  eq_of_parts,
}
use rm_uniswap.BalanceDelta.{BalanceDelta, fit_i128}
use rm_uniswap.Error.{Result, ok, err, Error, i128_overflow, ok_or, ok_injective, ◌>>=◌}
use rm_uniswap.Fee.{SwapFee}
use rm_uniswap.Fee.Protocol.{IsFee}
use rm_uniswap.Params.{SwapParamsInner, SwapResult}
use rm_uniswap.PoolState.{PoolState, StateAccess}
use rm_uniswap.SqrtPrice.{IsPrice, is_valid}
use rm_uniswap.SwapLoop.{
  Progress, Outcome, fee, begin, finished, swap_loop, swap_inner, swap_delta, bool_eq, fit_i256,
  limit_exceeded, after_loop, committed, result_of,
}
use rm_uniswap.SwapLoop.Charge.{Valid, Within}
use rm_uniswap.SwapLoop.Ends.{Orderly}
use rm_uniswap.SwapLoop.Run.{room, swap_loop-Ends}
use rm_uniswap.SwapLoop.Step.{Remaining}
use rm_uniswap.TickStore.{TickAccess}

fit_value : (z r : ℤ) → ok_or (fit_i128 z) i128_overflow ≡ ok r → r ≡ z
fit_value z r e = elim (Bool-cases (leb_ℤ (negsuc (2 ^ 127 - 1)) z && ltb_ℤ z (pos (2 ^ 127)))) [
  | inl fits ↦ sym (ok_injective (rw fits at e))
  | inr wide ↦ cc (rw wide at e)
]

consumed_value :
    (z r : ℤ)
    → (ok_or (fit_i256 z) i128_overflow >>= λ x. ok_or (fit_i128 x) i128_overflow) ≡ ok r
    → r ≡ z
consumed_value z r e =
    elim (Bool-cases (leb_ℤ (negsuc (2 ^ 255 - 1)) z && ltb_ℤ z (pos (2 ^ 255)))) [
      | inl fits ↦ fit_value z r (rw fits at e)
      | inr wide ↦ cc (rw wide at e)
    ]

-- The amounts of a swap for an amount specified: an exact input is paid at most, an exact output is
-- received at most, and the other token goes the other way.
abbrev pub Settled : ℤ → ℤ → ℤ → Type 0
Settled (pos a) specified other =
    (neg_part specified ≡ 0) × (pos_part specified ≤ a) × (pos_part other ≡ 0)
Settled (negsuc n) specified other =
    (pos_part specified ≡ 0) × (neg_part specified ≤ suc n) × (neg_part other ≡ 0)

settled_lem : (amount r c : ℤ) → Remaining amount r c → Settled amount (amount -ℤ r) c
settled_lem (pos a) r c h =
    omega (arith, -ℤ_parts (pos a) r, parts_disjoint (pos a -ℤ r), parts_disjoint r)
settled_lem (negsuc n) r c h =
    omega (arith, -ℤ_parts (negsuc n) r, parts_disjoint (negsuc n -ℤ r), parts_disjoint r)

all_used : (amount r : ℤ) → abs r ≡ 0 → amount -ℤ r ≡ amount
all_used amount r h = eq_of_parts (amount -ℤ r) amount (omega (arith, -ℤ_parts amount r))

abbrev delta_of : Result ℤ → Result ℤ → Result BalanceDelta
delta_of x y = x >>= λ a0. y >>= λ a1. ok (record { amount0 = a0; amount1 = a1 })

delta_of-ok :
    (x y : Result ℤ) (d : BalanceDelta)
    → delta_of x y ≡ ok d
    → (x ≡ ok d.amount0) × (y ≡ ok d.amount1)
delta_of-ok (ok x) (ok y) d e =
    let same = ok_injective e in
    (ap (λ (b : BalanceDelta). ok b.amount0) same, ap (λ (b : BalanceDelta). ok b.amount1) same)
delta_of-ok (ok x) (err _) d e = cc
delta_of-ok (err _) y d e = cc

pick_lem :
    (b : Bool) (x y : Result ℤ) (d : BalanceDelta)
    → (if b then delta_of x y else delta_of y x) ≡ ok d
    → (x ≡ ok (if b then d.amount0 else d.amount1)) × (y ≡ ok (if b then d.amount1 else d.amount0))
pick_lem true x y d e = delta_of-ok x y d e
pick_lem false x y d e = let (ey, ex) = delta_of-ok y x d e in (ex, ey)

module _ (A : TickAccess) (spacing : ℕ) (fees : SwapFee) (params : SwapParamsInner) where
  open params use {zero_for_one, amount_specified, sqrt_price_limit}

  -- The delta of the token that the amount is specified in, and of the other.
  abbrev pub specified_delta : BalanceDelta → ℤ
  specified_delta d =
      if bool_eq zero_for_one (ltb_ℤ amount_specified (pos 0)) then d.amount0 else d.amount1

  abbrev pub other_delta : BalanceDelta → ℤ
  other_delta d =
      if bool_eq zero_for_one (ltb_ℤ amount_specified (pos 0)) then d.amount1 else d.amount0

  -- What a successful swap has settled.
  pub record Books (result : SwapResult) : Type 0 where
    pub price : IsPrice result.sqrt_price_x96
    pub within_limit : Within zero_for_one sqrt_price_limit result.sqrt_price_x96
    pub settled :
        Settled amount_specified (specified_delta result.swap_delta) (other_delta result.swap_delta)
    pub stopped :
        (specified_delta result.swap_delta ≡ amount_specified)
        ⊎ (result.sqrt_price_x96 ≡ sqrt_price_limit)
        ⊎ (result.liquidity ≡ 0)

  swap_delta_lem :
      (start : PoolState) (w : Progress) (d : BalanceDelta)
      → swap_delta A spacing fees params start w ≡ ok d
      → (specified_delta d ≡ amount_specified -ℤ w.amount_specified_remaining)
        × (other_delta d ≡ w.amount_calculated)
  unfolding swap_delta
  swap_delta_lem start w d e =
      let z = amount_specified -ℤ w.amount_specified_remaining in
      let b = bool_eq zero_for_one (ltb_ℤ amount_specified (pos 0)) in
      let (ex, ey) =
        pick_lem b (ok_or (fit_i256 z) i128_overflow >>= λ x. ok_or (fit_i128 x) i128_overflow)
          (ok_or (fit_i128 w.amount_calculated) i128_overflow) d e in
      (consumed_value z (specified_delta d) ex, fit_value w.amount_calculated (other_delta d) ey)

  -- What the end of the loop says.
  stopped_lem :
      (start : PoolState) (w : Progress)
      → finished A spacing fees params start w ≡ true
      → (abs w.amount_specified_remaining ≡ 0)
        ⊎ (w.sqrt_price_x96 ≡ sqrt_price_limit)
        ⊎ (w.liquidity ≡ 0)
  stopped_lem start w e = ground arith

  books_lem :
      (start : PoolState) (w : Progress) (d : BalanceDelta)
      → Valid params w
      → finished A spacing fees params start w ≡ true
      → swap_delta A spacing fees params start w ≡ ok d
      → Books (result_of A spacing fees params start w d)
  books_lem start w d v f e =
      let (specified, other) = swap_delta_lem start w d e in
      record {
        price = v.price;
        within_limit = v.within;
        settled =
            rw (specified, other)
              (settled_lem amount_specified w.amount_specified_remaining w.amount_calculated
                v.remaining);
        stopped = elim (stopped_lem start w f) [
          | inl used ↦ inl (specified ∙ all_used amount_specified w.amount_specified_remaining used)
          | inr other_end ↦ inr other_end
        ];
      }

  module _ (B : StateAccess) where
    -- A run that returned: with an error, or with its books in order.
    pub record Returned (o : Outcome A B) : Type 0 where
      pub outcome : Result SwapResult
      pub outcome_eq : o.result ≡ some outcome
      pub books : (result : SwapResult) → outcome ≡ ok result → Books result

    refused : (o : Outcome A B) (e : Error) → o.result ≡ some (err e) → Returned o
    refused o e h = record { outcome = err e; outcome_eq = h; books = λ r k. cc }

    committed-Returned :
        (state : B.State) (ticks : A.Ticks) (w : Progress) (d : Result BalanceDelta)
        → Valid params w
        → finished A spacing fees params (B.get state) w ≡ true
        → swap_delta A spacing fees params (B.get state) w ≡ d
        → Returned (committed A B spacing fees params state ticks w d)
    committed-Returned state ticks w (err e) v f h = refused _ e refl
    committed-Returned state ticks w (ok d) v f h = record {
      outcome = ok (result_of A spacing fees params (B.get state) w d);
      outcome_eq = refl;
      books = λ r k. rw (sym (ok_injective k)) (books_lem (B.get state) w d v f h);
    }

    after_loop-Returned :
        (state : B.State) (ticks : A.Ticks) (r : Result Progress)
        → ((w : Progress)
            → r ≡ ok w
            → Valid params w × (finished A spacing fees params (B.get state) w ≡ true))
        → Returned (after_loop A B spacing fees params state ticks (some r))
    after_loop-Returned state ticks (err e) done = refused _ e refl
    after_loop-Returned state ticks (ok w) done =
        let (v, f) = done w refl in
        committed-Returned state ticks w (swap_delta A spacing fees params (B.get state) w) v f refl

    -- What a swap needs of the pool: a state in the protocol's range, ticks in order, a limit that is a
    -- price, a fee of at most 100%, and an amount that an `I256` holds.
    pub record Ready (P : A.Ticks → Type 0) (state : B.State) (ticks : A.Ticks) : Type 0 where
      pub orderly : Orderly A P
      pub kept : P ticks
      pub spacing_pos : 0 < spacing
      pub price : IsPrice (B.get state).sqrt_price_x96
      pub in_range : abs (B.get state).tick ≤ 887272
      pub liquidity : (B.get state).liquidity < 2 ^ 128
      pub limit : IsPrice sqrt_price_limit
      pub is_fee : IsFee (fee A spacing fees params (B.get state))
      pub amount : abs amount_specified ≤ 2 ^ 255

    begin-Remaining : (amount : ℤ) → Remaining amount amount (pos 0)
    begin-Remaining (pos a) = omega arith
    begin-Remaining (negsuc n) = omega arith

    begin-Within :
        (z : Bool) (limit p : ℕ)
        → (if z then leb p limit else leb limit p) ≡ false
        → Within z limit p
    begin-Within true limit p h = ground arith
    begin-Within false limit p h = ground arith

    room_bound : (z : Bool) (t : ℤ) → abs t ≤ 887272 → room z t < 1774546
    room_bound true t h = omega arith
    room_bound false t h = omega arith

    valid_price : (p : ℕ) → IsPrice p → is_valid p ≡ true
    valid_price p h = ground arith

    -- For a pool and a swap that are ready (the ticks in order, price, tick, limit, liquidity and
    -- fee in their ranges, an amount that an `I256` holds), a nonzero amount and fuel of at least
    -- 1,774,546: the run returns. Where it succeeds, the price is in range and within the limit, the
    -- specified token moves by at most the amount in its direction, the other token in the other
    -- direction, and the run has used the amount up, or ended at the limit, or without liquidity.
    pub swap_inner-Returned :
        (P : A.Ticks → Type 0) (fuel : ℕ) (state : B.State) (ticks : A.Ticks)
        → Ready P state ticks
        → 1774546 ≤ fuel
        → 0 < abs amount_specified
        → Returned (swap_inner A B spacing fees params fuel state ticks)
    unfolding swap_inner
    swap_inner-Returned P fuel state ticks ready enough nonzero =
        let start = B.get state in
        rw
          (pos_nonzero (abs amount_specified) nonzero, valid_price start.sqrt_price_x96 ready.price)
          (elim (Bool-cases (limit_exceeded A spacing fees params start)) [
            | inl x ↦ rw x (refused _ _ refl)
            | inr x ↦
                let w = begin A spacing fees params start in
                let v : Valid params w = record {
                  price = ready.price;
                  fits = ready.liquidity;
                  remaining = begin-Remaining amount_specified;
                  within = begin-Within zero_for_one sqrt_price_limit start.sqrt_price_x96 x;
                } in
                let ends =
                  swap_loop-Ends A spacing fees params start P ready.orderly ready.spacing_pos
                    ready.limit ready.is_fee ready.amount fuel ticks w ready.kept v
                    (inr (
                      ready.in_range,
                      omega (arith, room_bound zero_for_one start.tick ready.in_range),
                    )) in
                let r = swap_loop A spacing fees params start fuel ticks w in
                rw (x, ends.outcome_eq) (after_loop-Returned state (r.0) ends.outcome ends.done)
          ])
