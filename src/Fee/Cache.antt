-- ===== src/Fee/Cache.antt =====
-- About the effective fees that `SwapFee` caches, and its setters.
use rm_uniswap.Prelude.{◌≡◌, refl, sym, ap, ◌∙◌, arith, Bool-cases, Option, inl, inr}
use mathlib.Core.Path.{subst}
use rm_uniswap.Error.{ok, >>=-eq-ok, ok_injective}
use rm_uniswap.Fee.{
  Fee, ProtocolFee, SwapFee, from_lp_fee, effective_fees, set_protocol_fee, protocol_fee_eq,
}

-- The cached fees are those of the stored LP and protocol fee.
abbrev pub IsCoherent : SwapFee → Type 0
IsCoherent s = from_lp_fee s.lp_fee s.protocol_fee ≡ ok s

-- A swap fee that `from_lp_fee` returns is what `from_lp_fee` returns for the fees stored in it.
pub from_lp_fee-IsCoherent :
    (l : Option Fee) (p : ProtocolFee) {s : SwapFee} → from_lp_fee l p ≡ ok s → IsCoherent s
unfolding from_lp_fee
from_lp_fee-IsCoherent l p h =
    let (fees, e, built) = >>=-eq-ok (effective_fees l p) _ h in
    subst IsCoherent (ok_injective built) (rw e)

-- On a coherent swap fee, `set_protocol_fee` has the result of a rebuild with the stored LP fee and
-- the new protocol fee, errors included.
pub set_protocol_fee-eq-rebuild :
    (s : SwapFee) (p : ProtocolFee) → IsCoherent s → set_protocol_fee s p ≡ from_lp_fee s.lp_fee p
unfolding set_protocol_fee
set_protocol_fee-eq-rebuild s p h = elim (Bool-cases (protocol_fee_eq s.protocol_fee p)) [
  | inl same ↦
      let e : s.protocol_fee ≡ p = ground arith in rw same (sym h ∙ ap (from_lp_fee s.lp_fee) e)
  | inr other ↦ rw other (unfold from_lp_fee in refl)
]
