-- ===== src/Position/Fees.antt =====
-- About the update of a position: the fees it is owed are exact, and it is brought up to date.
use rm_uniswap.Prelude.{
  ℕ, ◌*◌, ◌/◌, ◌^◌, ◌<◌, ◌≡◌, refl, arith, inl, inr, ==_iff, div_lt_of_lt_mul, mul_lt, ◌==◌,
  Bool-cases, lt→ltb,
}
use rm_uniswap.Prelude.Int.{ℤ}
use rm_uniswap.Error.{ok}
use rm_uniswap.FullMath.{mul_div}
use rm_uniswap.FullMath.Exact.{mul_div_lem}
use rm_uniswap.Position.{PositionState, update, new_liquidity, fees_owed}
use rm_uniswap.Word.{wrapping_sub}

-- The growth since the last update, per unit of liquidity, as a whole number of units.
abbrev pub owed : ℕ → ℕ → ℕ → ℕ
owed liquidity growth last = wrapping_sub 256 growth last * liquidity / 2 ^ 128

owed_fits : (l g p : ℕ) → l < 2 ^ 128 → owed l g p < 2 ^ 256
owed_fits l g p h =
    let word : wrapping_sub 256 g p < 2 ^ 256 = omega arith in
    div_lt_of_lt_mul (wrapping_sub 256 g p * l) (2 ^ 128) (2 ^ 256) (omega arith)
      (mul_lt (wrapping_sub 256 g p) l (2 ^ 256) (2 ^ 128) word h)

owed_nothing : (l g p : ℕ) → l ≡ 0 → owed l g p ≡ 0
owed_nothing l g p e = rw e (omega arith)

mul_div-owed :
    (l g p : ℕ) → l < 2 ^ 128 → mul_div (wrapping_sub 256 g p) l (2 ^ 128) ≡ ok (owed l g p)
mul_div-owed l g p h =
    rw
      (
        mul_div_lem (wrapping_sub 256 g p) l (2 ^ 128) (omega arith),
        lt→ltb (owed l g p) (2 ^ 256) (owed_fits l g p h),
      )
      refl

fees_owed_lem :
    (p : PositionState) (growth0 growth1 : ℕ)
    → p.liquidity < 2 ^ 128
    → fees_owed p growth0 growth1
      ≡ ok (
        owed p.liquidity growth0 p.fee_growth_inside0_last_x128,
        owed p.liquidity growth1 p.fee_growth_inside1_last_x128,
      )
unfolding fees_owed
fees_owed_lem p growth0 growth1 h = elim (Bool-cases (p.liquidity == 0)) [
  | inl empty ↦
      let none = (==_iff p.liquidity 0).0 empty in
      rw
        (
          empty,
          owed_nothing p.liquidity growth0 p.fee_growth_inside0_last_x128 none,
          owed_nothing p.liquidity growth1 p.fee_growth_inside1_last_x128 none,
        )
        refl
  | inr some ↦
      rw
        (
          some,
          mul_div-owed p.liquidity growth0 p.fee_growth_inside0_last_x128 h,
          mul_div-owed p.liquidity growth1 p.fee_growth_inside1_last_x128 h,
        )
        refl
]

-- For a 128-bit liquidity, where `new_liquidity` accepts `l`: `update` stores `l` and the two
-- growths, and owes, for each token, the wrapping growth since the last update times the old
-- liquidity over 2^128, rounded down.
pub update_lem :
    (p : PositionState) (delta : ℤ) (growth0 growth1 l : ℕ)
    → p.liquidity < 2 ^ 128
    → new_liquidity p delta ≡ ok l
    → update p delta growth0 growth1 ≡ (
      record {
        liquidity = l;
        fee_growth_inside0_last_x128 = growth0;
        fee_growth_inside1_last_x128 = growth1;
      },
      ok (
        owed p.liquidity growth0 p.fee_growth_inside0_last_x128,
        owed p.liquidity growth1 p.fee_growth_inside1_last_x128,
      ),
    )
unfolding update
update_lem p delta growth0 growth1 l h e = rw (e, fees_owed_lem p growth0 growth1 h) refl
