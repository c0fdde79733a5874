-- ===== src/SwapLoop/Ends.antt =====
-- About the boundary of a step: it is a tick of the protocol's range, it has that tick's price, and it
-- lies in the direction of the swap.
use rm_uniswap.Prelude.{
  ℕ, suc, ◌*◌, ◌/◌, ◌^◌, ◌≤◌, ◌<◌, ◌≡◌, ◌⊎◌, inl, inr, refl, arith, Bool, true, false, none, some,
  mul_le_of_le_div, lt_mul_of_div_lt, if◌then◌else◌, Option-cases, Bool-cases,
}
use rm_uniswap.Prelude.Int.{
  ℤ, pos, negsuc, abs, pos_part, neg_part, leb_ℤ, ◌≤ℤ◌, ◌<ℤ◌, ◌+ℤ◌, +ℤ_parts,
}
use rm_uniswap.Error.{ok}
use rm_uniswap.Fee.{SwapFee}
use rm_uniswap.Params.{SwapParamsInner}
use rm_uniswap.PoolState.{PoolState}
use rm_uniswap.SwapLoop.{Boundary, clamp_tick, word_boundary, within_word, next_boundary}
use rm_uniswap.TickInfo.{TickInfo}
use rm_uniswap.TickKey.{div_euclid, shift_right, times}
use rm_uniswap.TickMath.{get_sqrt_price_at_tick}
use rm_uniswap.TickStore.{TickAccess}
use rm_uniswap.TickStore.Laws.{key_bound}

times_parts :
    (z : ℤ) (d : ℕ)
    → (pos_part (times z d) ≡ pos_part z * d) × (neg_part (times z d) ≡ neg_part z * d)
times_parts (pos n) d = omega arith
times_parts (negsuc n) d = ground arith

pub times_le : (z t : ℤ) (s : ℕ) → 0 < s → z ≤ℤ div_euclid t s → times z s ≤ℤ t
times_le (pos a) (pos n) s h le = omega (arith, mul_le_of_le_div n s a h (omega arith))
times_le (pos a) (negsuc n) s h le = absurd (omega arith)
times_le (negsuc a) (pos n) s h le = let (p, q) = times_parts (negsuc a) s in omega (arith, p, q)
times_le (negsuc a) (negsuc n) s h le =
    let (p, q) = times_parts (negsuc a) s in
    omega (arith, p, q, lt_mul_of_div_lt n s (suc a) h (omega arith))

pub lt_times : (z t : ℤ) (s : ℕ) → 0 < s → div_euclid t s <ℤ z → t <ℤ times z s
lt_times (pos a) (pos n) s h lt = omega (arith, lt_mul_of_div_lt n s a h (omega arith))
lt_times (pos a) (negsuc n) s h lt = omega arith
lt_times (negsuc a) (pos n) s h lt = absurd (omega arith)
lt_times (negsuc a) (negsuc n) s h lt =
    let (p, q) = times_parts (negsuc a) s in
    omega (arith, p, q, mul_le_of_le_div n s (suc a) h (omega arith))

-- The start of the 256-tick word.
word_start :
    (z : ℤ) → (times (shift_right z 8) 256 ≤ℤ z) × (z ≤ℤ times (shift_right z 8) 256 +ℤ pos 255)
word_start (pos n) = omega (arith, +ℤ_parts)
word_start (negsuc n) =
    let (p, q) = times_parts (negsuc (n / 2 ^ 8)) 256 in
    (omega (arith, p, q), omega (arith, p, q, +ℤ_parts))

abbrev pub Forward : Bool → ℤ → ℤ → Type 0
Forward true tick next = next ≤ℤ tick
Forward false tick next = tick <ℤ next ⊎ (next ≡ pos 887272)

clamp_range : (z : ℤ) → abs (clamp_tick z) ≤ 887272
clamp_range z = ground arith

clamp_le : (z t : ℤ) → abs t ≤ 887272 → z ≤ℤ t → clamp_tick z ≤ℤ t
clamp_le z t h le = ground arith

lt_clamp : (z t : ℤ) → abs t ≤ 887272 → t <ℤ z → t <ℤ clamp_tick z ⊎ (clamp_tick z ≡ pos 887272)
lt_clamp z t h lt = ground arith

-- For a tick of at most 887272 in magnitude and a nonzero spacing, the word boundary is at most
-- 887272 in magnitude; downwards it is at or below the tick, upwards it is above it or the last
-- tick.
pub word_boundary-Forward :
    (tick : ℤ) (spacing : ℕ) (zero_for_one : Bool)
    → abs tick ≤ 887272
    → 0 < spacing
    → (abs (word_boundary tick spacing zero_for_one) ≤ 887272)
      × Forward zero_for_one tick (word_boundary tick spacing zero_for_one)
unfolding word_boundary
word_boundary-Forward tick spacing true h s =
    let start = times (shift_right (div_euclid tick spacing) 8) 256 in
    (
      clamp_range (times start spacing),
      clamp_le (times start spacing) tick h
          (times_le start tick spacing s (word_start (div_euclid tick spacing)).0),
    )
word_boundary-Forward tick spacing false h s =
    let next = div_euclid tick spacing +ℤ pos 1 in
    let last = times (shift_right next 8) 256 +ℤ pos 255 in
    (
      clamp_range (times last spacing),
      lt_clamp (times last spacing) tick h (
          lt_times last tick spacing s
            (omega (arith, (word_start next).1, +ℤ_parts (div_euclid tick spacing) (pos 1)))),
    )

-- What the loop relies on in the ticks: `P` is kept by a crossing, and the next initialized tick is
-- one of the protocol's range with its price, in the direction of the swap.
pub record Orderly (A : TickAccess) (P : A.Ticks → Type 0) : Type 0 where
  pub next_lem :
      (ticks : A.Ticks) (tick : ℤ) (zero_for_one : Bool) (key : ℕ) (info : TickInfo)
      → P ticks
      → abs tick ≤ 887272
      → A.next_initialized_tick ticks (A.indexer ticks tick) zero_for_one ≡ some (key, info)
      → (key < key_bound)
        × (abs info.tick_index ≤ 887272)
        × (info.sqrt_price_x96 ≡ get_sqrt_price_at_tick info.tick_index)
        × Forward zero_for_one tick info.tick_index
  pub cross_lem :
      (ticks ticks' : A.Ticks) (key growth0 growth1 : ℕ) (net : ℤ)
      → P ticks
      → key < key_bound
      → A.cross_tick ticks key growth0 growth1 ≡ ok (ticks', net)
      → P ticks'

pub record IsBoundary (zero_for_one : Bool) (tick : ℤ) (b : Boundary) : Type 0 where
  pub in_range : abs b.tick_index ≤ 887272
  pub price : b.sqrt_price_x96 ≡ get_sqrt_price_at_tick b.tick_index
  pub forward : Forward zero_for_one tick b.tick_index
  pub keyed : (key : ℕ) → b.key ≡ some key → key < key_bound

keyed_lem : (n key : ℕ) → n < key_bound → some n ≡ some key → key < key_bound
keyed_lem n key h e = let same : n ≡ key = cc in omega arith

module _ (A : TickAccess) (spacing : ℕ) (fees : SwapFee) (params : SwapParamsInner)
    (start : PoolState) (P : A.Ticks → Type 0) (orderly : Orderly A P) where
  open params use {zero_for_one}

  pub next_boundary-IsBoundary :
      (ticks : A.Ticks) (tick : ℤ)
      → P ticks
      → abs tick ≤ 887272
      → 0 < spacing
      → IsBoundary zero_for_one tick (next_boundary A spacing fees params start ticks tick)
  unfolding next_boundary
  next_boundary-IsBoundary ticks tick p h s =
      let (range, forward) = word_boundary-Forward tick spacing zero_for_one h s in
      let wb = word_boundary tick spacing zero_for_one in
      let at_end : IsBoundary zero_for_one tick (within_word zero_for_one wb none) = record {
        in_range = range;
        price = refl;
        forward = forward;
        keyed = λ key e. cc e;
      } in
      elim (Option-cases (A.next_initialized_tick ticks (A.indexer ticks tick) zero_for_one)) [
        | inl e ↦ rw e at_end
        | inr (next, e) ↦
            let (fits, in_range, price, ahead) =
              orderly.next_lem ticks tick zero_for_one (next.0) (next.1) p h e in
            rw e
              (elim (Bool-cases
                (if zero_for_one then leb_ℤ wb next.1.tick_index else leb_ℤ next.1.tick_index wb)) [
                  | inl t ↦ rw t (record {
                    in_range = in_range;
                    price = price;
                    forward = ahead;
                    keyed = λ key k. keyed_lem (next.0) key fits k;
                  })
                  | inr f ↦ rw f at_end
                ])
      ]
