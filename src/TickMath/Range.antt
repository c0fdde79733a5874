-- ===== src/TickMath/Range.antt =====
-- About the range of `get_sqrt_price_at_tick`.
use native.Mathlib.Nat.{le_refl, div-mul-le_self}
use rm_uniswap.Prelude.{
  ℕ, zero, suc, ◌+◌, ◌-◌, ◌*◌, ◌/◌, ◌%◌, ◌^◌, ◌≤◌, ◌<◌, ◌≡◌, refl, arith, inl, inr, true, false,
  not, ltb, ◌==◌, if◌then◌else◌, ◌&&◌, lt_or_ge, pos_nonzero, Bool-cases, Bool, min, mul_le,
  le_div_of_mul_le, lt→ltb, le→ltb, ltb→lt,
}
use mathlib.Core.List.{List, [], ◌∷◌}
use rm_uniswap.Prelude.Int.{ℤ, pos, negsuc, abs}
use rm_uniswap.SqrtPrice.{IsPrice}
use rm_uniswap.TickMath.{tick_ratio, tick_ratios, entry, ratio_of, get_sqrt_price_at_tick}
use rm_uniswap.TickMath.Ladder.{ladder, ratio_of-ladder}
use rm_uniswap.Word.Fields.{bit_and_mask}

-- Every entry of the table is below one.
all_below_one : List ℕ → Bool
all_below_one [] = true
all_below_one (r ∷ rs) = ltb r (2 ^ 128) && all_below_one rs

entry_lt : (rs : List ℕ) (i : ℕ) → all_below_one rs ≡ true → entry rs i < 2 ^ 128
unfolding all_below_one
entry_lt [] i h = omega arith
entry_lt (r ∷ rs) zero h = ground (arith, ltb→lt r (2 ^ 128))
entry_lt (r ∷ rs) (suc i) h = ground (arith, entry_lt rs i)

table_checks : all_below_one tick_ratios ≡ true
unfolding all_below_one
table_checks = refl

tick_ratio_lt : (i : ℕ) → tick_ratio i < 2 ^ 128
tick_ratio_lt i = entry_lt tick_ratios i table_checks

-- One product by an entry.
abbrev down : ℕ → ℕ → ℕ
down i ratio = ratio * tick_ratio i / 2 ^ 128

down_le : (i ratio : ℕ) → down i ratio ≤ ratio
down_le i ratio = omega (
  arith,
  mul_le ratio (tick_ratio i) ratio (2 ^ 128) (le_refl ratio) (omega (arith, tick_ratio_lt i)),
  div-mul-le_self (ratio * tick_ratio i) (2 ^ 128),
)

down_mono : (i r s : ℕ) → r ≤ s → down i r ≤ down i s
down_mono i r s h = omega (arith, mul_le r (tick_ratio i) s (tick_ratio i) h (le_refl _))

-- A lower bound of the ladder over all numbers up to `m`, digit by digit.
least : ℕ → ℕ → ℕ → ℕ → ℕ
least zero i m ratio = ratio
least (suc n) i m ratio = elim (m % 2 == 1) [
  | true ↦ least n (suc i) (m / 2) (down i ratio)
  | false ↦ elim (m == 0) [
    | true ↦ least n (suc i) (m / 2) ratio
    | false ↦ min (least n (suc i) (m / 2) ratio) (least n (suc i) (m / 2 - 1) (down i ratio))
  ]
]

least_mono : (n i m r s : ℕ) → r ≤ s → least n i m r ≤ least n i m s
unfolding least
least_mono zero i m r s h = h
least_mono (suc n) i m r s h =
    let taken = least_mono n (suc i) (m / 2) (down i r) (down i s) (down_mono i r s h) in
    let skipped = least_mono n (suc i) (m / 2) r s h in
    let below = least_mono n (suc i) (m / 2 - 1) (down i r) (down i s) (down_mono i r s h) in
    elim (Bool-cases (m % 2 == 1)) [
      | inl odd ↦ rw (least, odd) taken
      | inr even ↦
          rw (least, even)
            (elim (Bool-cases (m == 0)) [
              | inl z ↦ rw (least, z) skipped
              | inr positive ↦ rw (least, positive) (omega arith)
            ])
    ]

-- It bounds the ladder from below at every number up to `m`.
least-le-ladder : (n i m b ratio : ℕ) → b ≤ m → least n i m ratio ≤ ladder n i b ratio
unfolding least ladder
least-le-ladder zero i m b ratio h = omega arith
least-le-ladder (suc n) i m b ratio h =
    let lower = down_le i ratio in
    let cheaper = least_mono n (suc i) (m / 2) (down i ratio) ratio lower in
    let odd_bit = least-le-ladder n (suc i) (m / 2) (b / 2) (down i ratio) (omega arith) in
    let even_bit = least-le-ladder n (suc i) (m / 2) (b / 2) ratio (omega arith) in
    elim (Bool-cases (b % 2 == 1)) [
      | inl odd_b ↦ rw odd_b (elim (Bool-cases (m % 2 == 1)) [
        | inl odd_m ↦ rw (least, odd_m) odd_bit
        | inr even_m ↦
            rw (least, even_m)
              (elim (Bool-cases (m == 0)) [
                | inl none ↦ absurd (ground arith)
                | inr some ↦
                    let smaller : b / 2 ≤ m / 2 - 1 = ground arith in
                    rw (least, some)
                      (omega (
                        arith,
                        least-le-ladder n (suc i) (m / 2 - 1) (b / 2) (down i ratio) smaller,
                      ))
              ])
      ])
      | inr even_b ↦ rw even_b (elim (Bool-cases (m % 2 == 1)) [
        | inl odd_m ↦ rw (least, odd_m) (omega arith)
        | inr even_m ↦
            rw (least, even_m)
              (elim (Bool-cases (m == 0)) [
                | inl none ↦ rw (least, none) even_bit
                | inr some ↦ rw (least, some) (omega arith)
              ])
      ])
    ]

-- The product for the last tick.
least_at_max_tick : least 20 0 887272 (2 ^ 128) ≡ 18447437462383981825
unfolding least
least_at_max_tick = refl

ladder_le : (n i b ratio : ℕ) → ladder n i b ratio ≤ ratio
unfolding ladder
ladder_le zero i b ratio = omega arith
ladder_le (suc n) i b ratio = elim (Bool-cases (b % 2 == 1)) [
  | inl odd ↦ rw odd (omega (arith, ladder_le n (suc i) (b / 2) (down i ratio), down_le i ratio))
  | inr even ↦ rw even (ladder_le n (suc i) (b / 2) ratio)
]

-- The product for a tick other than zero is between the one at the last tick and one.
ratio_of-bounds :
    (t : ℕ) → 0 < t → t ≤ 887272 → (18447437462383981825 ≤ ratio_of t) × (ratio_of t ≤ 2 ^ 128)
ratio_of-bounds t positive h = rw (ratio_of-ladder t positive (omega arith)) (
  omega (arith, least-le-ladder 20 0 887272 t (2 ^ 128) h, least_at_max_tick),
  ladder_le 20 0 t (2 ^ 128),
)

-- The rounding to a price, on each side of tick zero.
module _ (ratio : ℕ) (above : 18447437462383981825 ≤ ratio) (below : ratio ≤ 2 ^ 128) where
  rising : IsPrice (((2 ^ 256 - 1) / ratio + (2 ^ 32 - 1)) / 2 ^ 32)
  rising =
      let x = (2 ^ 256 - 1) / ratio in
      let upper = mul_le x 18447437462383981825 x ratio (le_refl x) above in
      let product = div-mul-le_self (2 ^ 256 - 1) ratio in
      let lower : 2 ^ 128 - 1 ≤ x =
        le_div_of_mul_le (2 ^ 256 - 1) ratio (2 ^ 128 - 1) (omega arith)
          (omega (arith, mul_le (2 ^ 128 - 1) ratio (2 ^ 128 - 1) (2 ^ 128) (le_refl _) below)) in
      record { min_le = omega arith; le_max = omega arith }

  falling : IsPrice (ratio / 2 ^ 32 + (if not (ratio % 2 ^ 32 == 0) then 1 else 0))
  falling = elim (lt_or_ge 0 (ratio % 2 ^ 32)) [
    | inl some ↦
        rw (pos_nonzero (ratio % 2 ^ 32) some)
          (record { min_le = omega arith; le_max = omega arith })
    | inr none ↦
        let exact : ratio % 2 ^ 32 ≡ 0 = omega arith in
        rw exact (record { min_le = omega arith; le_max = omega arith })
  ]

-- A tick of at most 887272 in magnitude has a price between the least and the greatest price of the
-- protocol.
pub get_sqrt_price_at_tick-IsPrice :
    (tick : ℤ) → abs tick ≤ 887272 → IsPrice (get_sqrt_price_at_tick tick)
unfolding get_sqrt_price_at_tick
get_sqrt_price_at_tick-IsPrice (pos n) h = elim (lt_or_ge 0 n) [
  | inl positive ↦
      let whole : n + 0 ≡ n = omega arith in
      let (above, below) = ratio_of-bounds n positive (omega arith) in
      rw (whole, pos_nonzero n positive, lt→ltb 0 n positive) (rising (ratio_of n) above below)
  | inr z ↦
      let none : n ≡ 0 = omega arith in
      rw none (record { min_le = omega arith; le_max = omega arith })
]
get_sqrt_price_at_tick-IsPrice (negsuc n) h =
    let whole : 0 + suc n ≡ suc n = omega arith in
    let (above, below) = ratio_of-bounds (suc n) (omega arith) (omega arith) in
    rw
      (
        whole,
        pos_nonzero (suc n) (omega arith),
        le→ltb (suc n) 0 (omega arith),
        bit_and_mask 32 (ratio_of (suc n)),
      )
      (falling (ratio_of (suc n)) above below)

-- The ends of the range.
pub min_tick_price : get_sqrt_price_at_tick (negsuc 887271) ≡ 4295128739
unfolding get_sqrt_price_at_tick ladder
min_tick_price = rw (ratio_of-ladder 887272 (omega arith) (omega arith)) refl

pub max_tick_price :
    get_sqrt_price_at_tick (pos 887272) ≡ 1461446703485210103287273052203988822378723970342
unfolding get_sqrt_price_at_tick ladder
max_tick_price = rw (ratio_of-ladder 887272 (omega arith) (omega arith)) refl
