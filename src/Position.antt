-- ===== src/Position.antt =====
-- core/concentrated/position.rs: the accounting of a position, the map of positions, and the trait
-- `PositionsAccess`. The hash map is an association list without an order of its own.
pub mod Fees
mod Tests
use mathlib.Core.List.{List, [], ◌∷◌}
use rm_uniswap.Prelude.{ℕ, ◌^◌, Bool, true, false, not, ◌==◌, if◌then◌else◌, ◌&&◌}
use rm_uniswap.Prelude.Int.{ℤ, abs, eqb_ℤ}
use rm_uniswap.BalanceDelta.{BalanceDelta}
use rm_uniswap.Error.{Result, ok, err, ◌>>=◌, ok_or, position_not_found, liquidity_overflow}
use rm_uniswap.FullMath.{mul_div}
use rm_uniswap.SwapLoop.{checked_add_signed}
use rm_uniswap.Word.{wrapping_sub}

pub record PositionIndex : Type 0 where
  pub owner : ℕ
  pub tick_lower : ℤ
  pub tick_upper : ℤ
  pub salt : ℕ

-- The derived equality.
abbrev pub index_eq : PositionIndex → PositionIndex → Bool
index_eq a b =
    (a.owner == b.owner)
    && eqb_ℤ a.tick_lower b.tick_lower
    && eqb_ℤ a.tick_upper b.tick_upper
    && (a.salt == b.salt)

pub record PositionState : Type 0 where
  pub liquidity : ℕ
  pub fee_growth_inside0_last_x128 : ℕ
  pub fee_growth_inside1_last_x128 : ℕ

-- `PositionState::DEFAULT`.
abbrev pub position_default : PositionState
position_default = record {
  liquidity = 0;
  fee_growth_inside0_last_x128 = 0;
  fee_growth_inside1_last_x128 = 0;
}

-- The new liquidity, or the error that `update` returns before it writes.
unfoldable pub new_liquidity : PositionState → ℤ → Result ℕ
new_liquidity p liquidity_delta =
    if abs liquidity_delta == 0
    then if p.liquidity == 0 then err position_not_found else ok p.liquidity
    else ok_or (checked_add_signed p.liquidity liquidity_delta) liquidity_overflow

unfoldable pub fees_owed : PositionState → ℕ → ℕ → Result (ℕ × ℕ)
fees_owed p growth0 growth1 =
    if not (p.liquidity == 0)
    then (mul_div (wrapping_sub 256 growth0 p.fee_growth_inside0_last_x128) p.liquidity (2 ^ 128)
        >>= λ owed0.
            mul_div (wrapping_sub 256 growth1 p.fee_growth_inside1_last_x128) p.liquidity (2 ^ 128)
            >>= λ owed1. ok (owed0, owed1))
    else ok (0, 0)

-- `update` writes the liquidity before it computes the fees, so an error there keeps it.
abbrev pub settled : ℕ → PositionState → ℕ → ℕ → Result (ℕ × ℕ) → PositionState × Result (ℕ × ℕ)
settled liquidity p growth0 growth1 (err e) = (record p { liquidity = liquidity }, err e)
settled liquidity p growth0 growth1 (ok owed) = (
  record {
    liquidity = liquidity;
    fee_growth_inside0_last_x128 = growth0;
    fee_growth_inside1_last_x128 = growth1;
  },
  ok owed,
)

abbrev pub changed : PositionState → ℕ → ℕ → Result ℕ → PositionState × Result (ℕ × ℕ)
changed p growth0 growth1 (err e) = (p, err e)
changed p growth0 growth1 (ok liquidity) =
    settled liquidity p growth0 growth1 (fees_owed p growth0 growth1)

-- `PositionState::update`.
unfoldable pub update : PositionState → ℤ → ℕ → ℕ → PositionState × Result (ℕ × ℕ)
unfolding new_liquidity fees_owed
update p liquidity_delta growth0 growth1 =
    changed p growth0 growth1 (new_liquidity p liquidity_delta)

-- The trait; the closure's result is the delta of the caller.
pub record PositionsAccess : Type 1 where
  pub Positions : Type 0
  pub enable : Bool
  pub update_position :
      Positions
      → PositionIndex
      → (PositionState → PositionState × Result BalanceDelta)
      → Positions × Result BalanceDelta

-- `self.0.entry(index).or_insert(DEFAULT)`, and the closure on it.
unfoldable pub update_entry :
    List (PositionIndex × PositionState)
    → PositionIndex
    → (PositionState → PositionState × Result BalanceDelta)
    → List (PositionIndex × PositionState) × Result BalanceDelta
update_entry [] index f = let r = f position_default in ((index, r.0) ∷ [], r.1)
update_entry ((i, p) ∷ rest) index f =
    let r = update_entry rest index f in
    if index_eq i index
    then (let here = f p in ((i, here.0) ∷ rest, here.1))
    else ((i, p) ∷ r.0, r.1)

-- `Positions`, and `()`, which keeps nothing.
abbrev pub stored_positions : PositionsAccess
stored_positions = record {
  Positions = List (PositionIndex × PositionState);
  enable = true;
  update_position = update_entry;
}

abbrev pub no_positions : PositionsAccess
no_positions = record {
  Positions = Unit {0};
  enable = false;
  update_position = λ ps index f. (ps, (f position_default).1);
}
