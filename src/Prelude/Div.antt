-- ===== src/Prelude/Div.antt =====
-- Division by a variable: facts that the tactics need as lemmas, and the rounding up of `div_ceil`.
use Prim.Native.Nat.{ℕ, zero, suc, ◌-◌, ◌+◌, ◌*◌, ◌/◌, ◌%◌, ◌≤◌, ◌<◌}
use mathlib.Core.Path.{◌≡◌}
use native.Mathlib.Nat.{
  add-mul-mod_self_right, mod-eq_of_lt, div-add-mod', le-div_iff_mul-le, div-lt_iff_lt-mul,
  div-eq_of_lt, mod-lt, mul-div_cancel, mul-add-div_right,
}
use mathlib.Core.Logic.{◌⊎◌, inl, inr}
use native.Mathlib.Omega.{arith}
use rm_uniswap.Prelude.Tests.{◌==◌, if◌then◌else◌, Bool-cases}

-- The quotient and the remainder are the only numbers with a remainder below the divisor.
pub div_unique : (d q : ℕ) {n r : ℕ} → n ≡ q * d + r → r < d → n / d ≡ q
div_unique d q {n} {r} e h =
    rw (e, mul-add-div_right {m = d} (omega arith) q r, div-eq_of_lt h) (omega arith)

pub mod_unique : (d q : ℕ) {n r : ℕ} → n ≡ q * d + r → r < d → n % d ≡ r
mod_unique d q {n} {r} e h =
    let e' : n ≡ r + q * d = omega arith in rw (e', add-mul-mod_self_right r q d) (mod-eq_of_lt h)

pub le_div_of_mul_le : (n d k : ℕ) → 0 < d → k * d ≤ n → k ≤ n / d
le_div_of_mul_le n d k p h = (le-div_iff_mul-le p).1 h

pub mul_le_of_le_div : (n d k : ℕ) → 0 < d → k ≤ n / d → k * d ≤ n
mul_le_of_le_div n d k p h = (le-div_iff_mul-le p).0 h

pub div_lt_of_lt_mul : (n d k : ℕ) → 0 < d → n < k * d → n / d < k
div_lt_of_lt_mul n d k p h = (div-lt_iff_lt-mul p).1 h

pub lt_mul_of_div_lt : (n d k : ℕ) → 0 < d → n / d < k → n < k * d
lt_mul_of_div_lt n d k p h = (div-lt_iff_lt-mul p).0 h

-- `div_ceil`: the quotient, rounded up.
pub div_ceil : ℕ → ℕ → ℕ
div_ceil n d = if n % d == 0 then n / d else n / d + 1

pub div_ceil-cases :
    (n d : ℕ) → (n % d ≡ 0) × (div_ceil n d ≡ n / d) ⊎ (0 < n % d) × (div_ceil n d ≡ n / d + 1)
unfolding div_ceil
div_ceil-cases n d = elim (Bool-cases (n % d == 0)) [
  | inl e ↦ inl (ground arith, rw e)
  | inr e ↦ inr (ground arith, rw e)
]

-- The ceiling is at most any number whose product with the divisor reaches the dividend.
pub div_ceil_le : (n d k : ℕ) → 0 < d → n ≤ k * d → div_ceil n d ≤ k
div_ceil_le n d k p h = elim (div_ceil-cases n d) [
  | inl (z, e) ↦ rw e (le_of_mul_le n d k p (omega (arith, div-add-mod' n d)))
  | inr (z, e) ↦ rw e (le_of_lt_mul n d k p (omega (arith, div-add-mod' n d)))
]
  where
    le_of_mul_le : (n d k : ℕ) → 0 < d → n / d * d ≤ k * d → n / d ≤ k
    le_of_mul_le n d k p h =
        omega (arith, le_div_of_mul_le (k * d) d (n / d) p h, mul-div_cancel k {n = d} p)

    le_of_lt_mul : (n d k : ℕ) → 0 < d → n / d * d < k * d → n / d + 1 ≤ k
    le_of_lt_mul n d k p h =
        omega (arith, div_lt_of_lt_mul (n / d * d) d k p h, mul-div_cancel (n / d) {n = d} p)

pub le_mul_div_ceil : (n d : ℕ) → 0 < d → n ≤ div_ceil n d * d
le_mul_div_ceil n d p = elim (div_ceil-cases n d) [
  | inl (z, e) ↦ rw e (omega (arith, div-add-mod' n d))
  | inr (z, e) ↦ rw e (omega (arith, div-add-mod' n d, mod-lt n {m = d} p))
]

pub div_ceil_mul_lt : (n d : ℕ) → 0 < d → div_ceil n d * d < n + d
div_ceil_mul_lt n d p = elim (div_ceil-cases n d) [
  | inl (z, e) ↦ rw e (omega (arith, div-add-mod' n d))
  | inr (z, e) ↦ rw e (omega (arith, div-add-mod' n d, mod-lt n {m = d} p))
]

pub mul_lt : (a b x y : ℕ) → a < x → b < y → a * b < x * y
mul_lt a b x y h k = grind arith

pub mul_le : (a b x y : ℕ) → a ≤ x → b ≤ y → a * b ≤ x * y
mul_le a b x y h k = grind arith

-- A product with a predecessor.
pub pred_mul : (s y : ℕ) → 1 ≤ s → (s - 1) * y + y ≡ s * y
pred_mul zero y h = absurd (omega arith)
pred_mul (suc s) y h = let less : suc s - 1 ≡ s = omega arith in rw less (omega arith)
