-- ===== src/Word/Count.antt =====
-- What `bit_len` and `trailing_zeros` say about a word.
use rm_uniswap.Prelude.{
  refl, ℕ, zero, suc, ◌+◌, ◌-◌, ◌*◌, ◌/◌, ◌%◌, ◌^◌, ◌≤◌, ◌<◌, ◌≡◌, ap, arith, inl, inr, ◌==◌,
  Bool-cases,
}
use Prim.Native.Nat.{bit_and}
use rm_uniswap.Word.Bits.{bit_and_digit}
use rm_uniswap.Word.{bit_len, leading_zeros, trailing_zeros}
use rm_uniswap.Word.Pow.{two_pow_suc, two_pow_pos, two_pow_le}

-- A word that is below a power of two has no more digits than the exponent.
pub bit_len-le : (w x k : ℕ) → x < 2 ^ k → bit_len w x ≤ k
unfolding bit_len
bit_len-le zero x k h = omega arith
bit_len-le (suc w) x zero h = ground arith
bit_len-le (suc w) x (suc k) h =
    ground (arith, bit_len-le w (x / 2) k (omega (arith, two_pow_suc k)))

bit_len-suc : (w x : ℕ) → bit_len (suc w) (suc x) ≡ suc (bit_len w (suc x / 2))
unfolding bit_len
bit_len-suc w x = ground arith

pub lt_pow_bit_len : (w x : ℕ) → x < 2 ^ w → x < 2 ^ bit_len w x
lt_pow_bit_len zero x h = omega (arith, two_pow_pos (bit_len zero x))
lt_pow_bit_len (suc w) zero h = omega (arith, two_pow_pos (bit_len (suc w) zero))
lt_pow_bit_len (suc w) (suc x) h = rw (bit_len-suc w x) (
    omega (
      arith,
      two_pow_suc (bit_len w (suc x / 2)),
      lt_pow_bit_len w (suc x / 2) (omega (arith, two_pow_suc w)),
    ))

-- A word has at most `k` digits exactly when it is below `2 ^ k`.
pub lt_pow_of_bit_len-le : (w x k : ℕ) → x < 2 ^ w → bit_len w x ≤ k → x < 2 ^ k
lt_pow_of_bit_len-le w x k h p = omega (arith, lt_pow_bit_len w x h, two_pow_le (bit_len w x) k p)

-- A word that is not zero is an odd number times the power of two that its low zeros stand for.
pub trailing_zeros_odd :
    (w x : ℕ)
    → 0 < x
    → x < 2 ^ w
    → (q : ℕ) × (x ≡ (2 * q + 1) * 2 ^ trailing_zeros w x) × (trailing_zeros w x < w)
unfolding trailing_zeros
trailing_zeros_odd zero x p h = absurd (omega arith)
trailing_zeros_odd (suc w) x p h = elim (Bool-cases (x % 2 == 1)) [
  | inl odd ↦ (x / 2, rw odd (ground arith), rw odd (omega arith))
  | inr even ↦
      let e : x % 2 ≡ 0 = ground arith in
      let rest = trailing_zeros_odd w (x / 2) (omega arith) (omega (arith, two_pow_suc w)) in
      (
        rest.0,
        rw even (
            omega (
              arith,
              rest.1,
              ap (λ (t : ℕ). (2 * rest.0 + 1) * t) (two_pow_suc (trailing_zeros w (x / 2))),
            )),
        rw even (omega (arith, rest.2)),
      )
]

-- `d & -d` has the same low zeros as `d`.
pub trailing_zeros-bit_and_neg :
    (w d : ℕ) → 0 < d → d < 2 ^ w → trailing_zeros w (bit_and d (2 ^ w - d)) ≡ trailing_zeros w d
unfolding trailing_zeros
trailing_zeros-bit_and_neg zero d p h = absurd (omega arith)
trailing_zeros-bit_and_neg (suc w) d p h = elim (Bool-cases (d % 2 == 1)) [
  | inl odd ↦ rw odd (ground (arith, two_pow_suc w, bit_and_digit d (2 ^ suc w - d)))
  | inr even ↦ ground (
    arith,
    two_pow_suc w,
    bit_and_digit d (2 ^ suc w - d),
    trailing_zeros-bit_and_neg w (d / 2) (ground arith) (omega (arith, two_pow_suc w)),
  )
]

-- The low zeros of an odd number, shifted.
pub trailing_zeros_shifted : (w q i : ℕ) → i < w → trailing_zeros w ((2 * q + 1) * 2 ^ i) ≡ i
unfolding trailing_zeros
trailing_zeros_shifted zero q i h = absurd (omega arith)
trailing_zeros_shifted (suc w) q zero h = ground arith
trailing_zeros_shifted (suc w) q (suc i) h =
    let even : (2 * q + 1) * 2 ^ suc i ≡ (2 * q + 1) * 2 ^ i * 2 =
      omega (arith, ap (λ (t : ℕ). (2 * q + 1) * t) (two_pow_suc i)) in
    let half : (2 * q + 1) * 2 ^ i * 2 / 2 ≡ (2 * q + 1) * 2 ^ i = omega arith in
    let rest : (2 * q + 1) * 2 ^ i * 2 % 2 ≡ 0 = omega arith in
    rw (even, half, rest, trailing_zeros_shifted w q i (omega arith))

pub leading_zeros_lem : (w x : ℕ) → leading_zeros w x ≡ w - bit_len w x
unfolding leading_zeros
leading_zeros_lem w x = refl
