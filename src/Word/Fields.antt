-- ===== src/Word/Fields.antt =====
-- `|` of disjoint fields and `&` with a low mask, as arithmetic, at every width.
use Prim.Native.Nat.{bit_or, bit_and}
use mathlib.Core.WellFounded
use rm_uniswap.Prelude.{
  ℕ, zero, suc, ◌+◌, ◌-◌, ◌*◌, ◌/◌, ◌%◌, ◌^◌, ◌≤◌, ◌<◌, ◌≡◌, refl, ap, ◌∙◌, arith,
}
use rm_uniswap.Prelude.Order.{lt_wf}
use rm_uniswap.Word.Bits.{bit_or_digit, bit_and_digit, bit_or-zero, bit_and-zero, bit_or_comm}
use rm_uniswap.Word.Pow.{two_pow_suc, two_pow_pos}

-- `(q << k) | r` is a sum when `r` fits into `k` bits.
pub bit_or_fields : (k q r : ℕ) → r < 2 ^ k → bit_or (q * 2 ^ k) r ≡ q * 2 ^ k + r
bit_or_fields zero q r fits = ground (arith, bit_or-zero q)
bit_or_fields (suc k) q r fits = ground (
  arith,
  bit_or_digit (q * 2 ^ suc k) r,
  ap (λ (t : ℕ). q * t) (two_pow_suc k),
  bit_or_fields k q (r / 2) (omega (arith, two_pow_suc k)),
)

pub bit_or_fields_comm : (k q r : ℕ) → r < 2 ^ k → bit_or r (q * 2 ^ k) ≡ q * 2 ^ k + r
bit_or_fields_comm k q r fits = bit_or_comm r (q * 2 ^ k) ∙ bit_or_fields k q r fits

bit_and_fields : (k q r : ℕ) → r < 2 ^ k → bit_and (q * 2 ^ k + r) (2 ^ k - 1) ≡ r
bit_and_fields zero q r fits = rw bit_and-zero (omega arith)
bit_and_fields (suc k) q r fits = ground (
  arith,
  bit_and_digit (q * 2 ^ suc k + r) (2 ^ suc k - 1),
  ap (λ (t : ℕ). q * t) (two_pow_suc k),
  two_pow_suc k,
  two_pow_pos k,
  bit_and_fields k q (r / 2) (omega (arith, two_pow_suc k)),
)

-- A mask of the `k` low bits is the remainder by `2 ^ k`.
pub bit_and_mask : (k a : ℕ) → bit_and a (2 ^ k - 1) ≡ a % 2 ^ k
bit_and_mask k a = ground (arith, two_pow_pos k, bit_and_fields k (a / 2 ^ k) (a % 2 ^ k))

pub bit_and_self : (a : ℕ) → bit_and a a ≡ a
bit_and_self a = WellFounded.induction lt_wf {C = λ n. bit_and n n ≡ n} a step
  where
    step : (n : ℕ) → ((m : ℕ) → m < n → bit_and m m ≡ m) → bit_and n n ≡ n
    step zero ih = refl
    step (suc n) ih = omega (arith, bit_and_digit (suc n) (suc n), ih (suc n / 2) (omega arith))

pub le-bit_or : (a b : ℕ) → a ≤ bit_or a b
le-bit_or a b = WellFounded.induction lt_wf {C = λ n. (m : ℕ) → n ≤ bit_or n m} a step b
  where
    step : (n : ℕ) → ((k : ℕ) → k < n → (m : ℕ) → k ≤ bit_or k m) → (m : ℕ) → n ≤ bit_or n m
    step zero ih m = omega arith
    step (suc n) ih m = omega (arith, bit_or_digit (suc n) m, ih (suc n / 2) (omega arith) (m / 2))

-- `a | b` is zero only where both are.
pub bit_or_eq_zero : (a b : ℕ) → bit_or a b ≡ 0 → (a ≡ 0) × (b ≡ 0)
bit_or_eq_zero a b h = omega (arith, le-bit_or a b, le-bit_or b a, bit_or_comm a b)
