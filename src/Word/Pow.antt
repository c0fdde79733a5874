-- ===== src/Word/Pow.antt =====
-- Powers of two.
use native.Mathlib.Nat.{pow-suc, one-le-pow}
use rm_uniswap.Prelude.{ℕ, zero, suc, ◌+◌, ◌-◌, ◌*◌, ◌^◌, ◌≤◌, ◌≡◌, ap, arith}

pub two_pow_suc : (n : ℕ) → 2 ^ suc n ≡ 2 * 2 ^ n
two_pow_suc n = omega (arith, pow-suc 2 n)

pub two_pow_pos : (n : ℕ) → 1 ≤ 2 ^ n
two_pow_pos n = one-le-pow n 2 (omega arith)

pub two_pow_add : (m n k : ℕ) → m + n ≡ k → 2 ^ k ≡ 2 ^ m * 2 ^ n
two_pow_add zero n k h = let e : k ≡ n = omega arith in rw e (omega arith)
two_pow_add (suc m) n zero h = absurd (omega arith)
two_pow_add (suc m) n (suc k) h = omega (
  arith,
  two_pow_suc m,
  two_pow_suc k,
  ap (λ (t : ℕ). 2 * t) (two_pow_add m n k (omega arith)),
  ap (λ (t : ℕ). t * 2 ^ n) (two_pow_suc m),
)

pub two_pow_le : (m n : ℕ) → m ≤ n → 2 ^ m ≤ 2 ^ n
two_pow_le m n h = grind (arith, two_pow_add m (n - m) n (omega arith), two_pow_pos (n - m))
