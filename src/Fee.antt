-- ===== src/Fee.antt =====
-- core/types/fee: the LP fee, the protocol fee and the effective swap fees that `SwapFee` caches.
pub mod Protocol
pub mod Cache
mod Tests
use rm_uniswap.Prelude.{
  ℕ, ◌+◌, ◌-◌, ◌*◌, ◌/◌, Bool, true, false, not, ltb, leb, ◌==◌, if◌then◌else◌, ◌&&◌, Option, none,
  some,
}
use rm_uniswap.Error.{Result, ok, err, invalid_lp_fee, fee_too_large, ok_or, ◌>>=◌}

-- `MAX_FEE`, in pips; `PIPS_DENOMINATOR` is the same number.
abbrev pub max_fee : ℕ
max_fee = 1_000_000

abbrev pub pips_denominator : ℕ
pips_denominator = 1_000_000

abbrev pub max_protocol_fee : ℕ
max_protocol_fee = 1_000

abbrev pub dynamic_fee_flag : ℕ
dynamic_fee_flag = 0x800000

pub record Fee : Type 0 where
  pub pips : ℕ
  pub complement : ℕ

-- `Fee::ZERO` and `Fee::DYNAMIC`.
abbrev pub fee_zero : Fee
fee_zero = record { pips = 0; complement = 1_000_000 }

abbrev pub fee_dynamic : Fee
fee_dynamic = record { pips = 0x800000; complement = 0 }

-- `Fee::new`.
pub new_fee : ℕ → Option Fee
new_fee fee_pips =
    if ltb max_fee fee_pips
    then none
    else some (record { pips = fee_pips; complement = max_fee - fee_pips })

-- The derived equality.
abbrev pub fee_eq : Fee → Fee → Bool
fee_eq a b = (a.pips == b.pips) && (a.complement == b.complement)

abbrev pub is_zero : Fee → Bool
is_zero f = f.pips == 0

abbrev pub is_max : Fee → Bool
is_max f = f.pips == max_fee

abbrev pub is_valid : Fee → Bool
is_valid f = leb f.pips max_fee

pub record ProtocolFee : Type 0 where
  pub zero_for_one_fee : ℕ
  pub one_for_zero_fee : ℕ

abbrev pub protocol_fee_is_valid : ProtocolFee → Bool
protocol_fee_is_valid p =
    leb p.zero_for_one_fee max_protocol_fee && leb p.one_for_zero_fee max_protocol_fee

-- `ProtocolFee::new`.
pub new_protocol_fee : ℕ → ℕ → Option ProtocolFee
new_protocol_fee zero_for_one_fee one_for_zero_fee =
    let result : ProtocolFee = record {
      zero_for_one_fee = zero_for_one_fee;
      one_for_zero_fee = one_for_zero_fee;
    } in
    if protocol_fee_is_valid result then some result else none

abbrev pub protocol_fee_eq : ProtocolFee → ProtocolFee → Bool
protocol_fee_eq a b =
    (a.zero_for_one_fee == b.zero_for_one_fee) && (a.one_for_zero_fee == b.one_for_zero_fee)

-- `ProtocolFee::pips` and `ProtocolFee::get_fee`, which read the same field.
abbrev pub get_fee : ProtocolFee → Bool → ℕ
get_fee p zero_for_one = if zero_for_one then p.zero_for_one_fee else p.one_for_zero_fee

pub calculate_swap_fee : ProtocolFee → Bool → Fee → Result Fee
unfolding new_fee
calculate_swap_fee p zero_for_one lp_fee =
    let protocol_fee = get_fee p zero_for_one in
    let overlap = protocol_fee * lp_fee.pips / pips_denominator in
    let combined = protocol_fee + lp_fee.pips - overlap in
    if not (is_valid lp_fee)
    then err invalid_lp_fee
    else if protocol_fee == 0
    then ok lp_fee
    else ok_or (new_fee combined) fee_too_large

pub record SwapFee : Type 0 where
  pub lp_fee : Option Fee
  pub protocol_fee : ProtocolFee
  pub zero_for_one_swap_fee : Fee
  pub one_for_zero_swap_fee : Fee

pub calculate_effective_fee : Fee → ProtocolFee → Result (Fee × Fee)
calculate_effective_fee lp_fee protocol_fee = do
  down ← calculate_swap_fee protocol_fee true lp_fee
  up ← calculate_swap_fee protocol_fee false lp_fee
  ok (down, up)

-- The pair of cached fees; both are zero while a dynamic LP fee is not known.
pub effective_fees : Option Fee → ProtocolFee → Result (Fee × Fee)
effective_fees none protocol_fee = ok (fee_zero, fee_zero)
effective_fees (some lp_fee) protocol_fee = calculate_effective_fee lp_fee protocol_fee

-- `SwapFee::from_lp_fee`; `SwapFee::new` passes `some lp_fee`.
pub from_lp_fee : Option Fee → ProtocolFee → Result SwapFee
unfolding effective_fees
from_lp_fee lp_fee protocol_fee = do
  fees ← effective_fees lp_fee protocol_fee
  ok (record {
    lp_fee = lp_fee;
    protocol_fee = protocol_fee;
    zero_for_one_swap_fee = fees.0;
    one_for_zero_swap_fee = fees.1;
  })

pub new_swap_fee : Fee → ProtocolFee → Result SwapFee
new_swap_fee lp_fee protocol_fee = from_lp_fee (some lp_fee) protocol_fee

pub new_dynamic : ProtocolFee → SwapFee
new_dynamic protocol_fee = record {
  lp_fee = none;
  protocol_fee = protocol_fee;
  zero_for_one_swap_fee = fee_zero;
  one_for_zero_swap_fee = fee_zero;
}

-- `SwapFee::swap_fee`.
abbrev pub swap_fee : SwapFee → Bool → Fee
swap_fee s zero_for_one = if zero_for_one then s.zero_for_one_swap_fee else s.one_for_zero_swap_fee

abbrev option_fee_eq : Option Fee → Fee → Bool
option_fee_eq none f = false
option_fee_eq (some g) f = fee_eq g f

-- The setters return the new value; on an error the caller's value is unchanged.
pub set_lp_fee : SwapFee → Fee → Result SwapFee
set_lp_fee s lp_fee =
    if option_fee_eq s.lp_fee lp_fee
    then ok s
    else (calculate_effective_fee lp_fee s.protocol_fee >>= λ fees. ok (record s {
      lp_fee = some lp_fee;
      zero_for_one_swap_fee = fees.0;
      one_for_zero_swap_fee = fees.1;
    }))

pub set_protocol_fee : SwapFee → ProtocolFee → Result SwapFee
unfolding effective_fees
set_protocol_fee s protocol_fee =
    if protocol_fee_eq s.protocol_fee protocol_fee
    then ok s
    else (effective_fees s.lp_fee protocol_fee >>= λ fees. ok (record s {
      protocol_fee = protocol_fee;
      zero_for_one_swap_fee = fees.0;
      one_for_zero_swap_fee = fees.1;
    }))
