-- ===== src/Word/Digits.antt =====
-- The binary digits of a word, and those of the results of the operations on words.
use Prim.Native.Nat.{bit_and, bit_or, bit_and-bitwise}
use rm_uniswap.Prelude.{
  ℕ, zero, suc, ◌-◌, ◌/◌, ◌%◌, ◌^◌, ◌≤◌, ◌<◌, ◌≡◌, inl, inr, refl, arith, min, max, false, ◌==◌,
  Bool-cases, ==_iff, lt_or_ge,
}
use rm_uniswap.Word.{bit_len, trailing_zeros}
use mathlib.Core.WellFounded
use rm_uniswap.Prelude.Order.{lt_wf}
use rm_uniswap.Word.Bits.{bit_and_digit, bit_or_digit}
use rm_uniswap.Word.Pow.{two_pow_suc, two_pow_pos, two_pow_le}

pub digit : ℕ → ℕ → ℕ
digit x zero = x % 2
digit x (suc i) = digit (x / 2) i

pub digit_le : (x i : ℕ) → digit x i ≤ 1
unfolding digit
digit_le x zero = omega arith
digit_le x (suc i) = digit_le (x / 2) i

pub digit-zero : (i : ℕ) → digit 0 i ≡ 0
unfolding digit
digit-zero zero = refl
digit-zero (suc i) = digit-zero i

pub digit-bit_and : (x y i : ℕ) → digit (bit_and x y) i ≡ min (digit x i) (digit y i)
unfolding digit
digit-bit_and x y zero = omega (arith, bit_and_digit x y)
digit-bit_and x y (suc i) =
    let half : bit_and x y / 2 ≡ bit_and (x / 2) (y / 2) = omega (arith, bit_and_digit x y) in
    rw half (digit-bit_and (x / 2) (y / 2) i)

pub digit-bit_or : (x y i : ℕ) → digit (bit_or x y) i ≡ max (digit x i) (digit y i)
unfolding digit
digit-bit_or x y zero = omega (arith, bit_or_digit x y)
digit-bit_or x y (suc i) =
    let half : bit_or x y / 2 ≡ bit_or (x / 2) (y / 2) = omega (arith, bit_or_digit x y) in
    rw half (digit-bit_or (x / 2) (y / 2) i)

-- A power of two has one digit.
pub digit-pow_same : (k : ℕ) → digit (2 ^ k) k ≡ 1
unfolding digit
digit-pow_same zero = refl
digit-pow_same (suc k) =
    let half : 2 ^ suc k / 2 ≡ 2 ^ k = omega (arith, two_pow_suc k) in rw half (digit-pow_same k)

pub digit-pow_other : (k i : ℕ) → (i == k) ≡ false → digit (2 ^ k) i ≡ 0
unfolding digit
digit-pow_other zero zero h = cc h
digit-pow_other zero (suc i) h = digit-zero i
digit-pow_other (suc k) zero h = omega (arith, two_pow_suc k)
digit-pow_other (suc k) (suc i) h =
    let h' : (i == k) ≡ false = ground arith in
    let half : 2 ^ suc k / 2 ≡ 2 ^ k = omega (arith, two_pow_suc k) in
    rw half (digit-pow_other k i h')

-- The complement in `w` bits.
pub digit-complement : (w x i : ℕ) → x < 2 ^ w → i < w → digit (2 ^ w - 1 - x) i ≡ 1 - digit x i
unfolding digit
digit-complement zero x i hx hi = absurd (omega arith)
digit-complement (suc w) x zero hx hi = omega (arith, two_pow_suc w)
digit-complement (suc w) x (suc i) hx hi =
    let half : (2 ^ suc w - 1 - x) / 2 ≡ 2 ^ w - 1 - x / 2 = omega (arith, two_pow_suc w) in
    rw half (digit-complement w (x / 2) i (omega (arith, two_pow_suc w)) (omega arith))

-- The low digits.
pub digit-mask_below : (k i : ℕ) → i < k → digit (2 ^ k - 1) i ≡ 1
unfolding digit
digit-mask_below zero i h = absurd (omega arith)
digit-mask_below (suc k) zero h = omega (arith, two_pow_suc k, two_pow_pos k)
digit-mask_below (suc k) (suc i) h =
    let half : (2 ^ suc k - 1) / 2 ≡ 2 ^ k - 1 = omega (arith, two_pow_suc k, two_pow_pos k) in
    rw half (digit-mask_below k i (omega arith))

pub digit-above : (k x i : ℕ) → x < 2 ^ k → k ≤ i → digit x i ≡ 0
unfolding digit
digit-above zero x i hx hi = let none : x ≡ 0 = omega arith in rw none (digit-zero i)
digit-above (suc k) x zero hx hi = absurd (omega arith)
digit-above (suc k) x (suc i) hx hi =
    digit-above k (x / 2) i (omega (arith, two_pow_suc k)) (omega arith)

least_from :
    (x t : ℕ)
    → x % 2 ≡ 0
    → ((i : ℕ) → i < t → digit (x / 2) i ≡ 0)
    → (i : ℕ) → i < suc t
    → digit x i ≡ 0
unfolding digit
least_from x t parity least zero l = parity
least_from x t parity least (suc i) l = least i (omega arith)

-- The lowest digit of a word that is not zero.
pub trailing_zeros_least :
    (w x : ℕ)
    → 0 < x
    → x < 2 ^ w
    → (trailing_zeros w x < w)
      × (digit x (trailing_zeros w x) ≡ 1)
      × ((i : ℕ) → i < trailing_zeros w x → digit x i ≡ 0)
unfolding digit trailing_zeros
trailing_zeros_least zero x p h = absurd (omega arith)
trailing_zeros_least (suc w) x p h = elim (Bool-cases (x % 2 == 1)) [
  | inl odd ↦ rw odd (omega arith, (==_iff (x % 2) 1).0 odd, λ i l. absurd (omega arith))
  | inr even ↦
      let parity : x % 2 ≡ 0 = ground arith in
      let (fits, found, least) =
        trailing_zeros_least w (x / 2) (omega arith) (omega (arith, two_pow_suc w)) in
      rw even (omega arith, found, λ i l. least_from x (trailing_zeros w (x / 2)) parity least i l)
]

above_from :
    (x n : ℕ) → ((i : ℕ) → n < i → digit (x / 2) i ≡ 0) → (i : ℕ) → suc n < i → digit x i ≡ 0
unfolding digit
above_from x n above zero l = absurd (omega arith)
above_from x n above (suc i) l = above i (omega arith)

bit_len-zero : (w : ℕ) → bit_len w 0 ≡ 0
unfolding bit_len
bit_len-zero zero = refl
bit_len-zero (suc w) = refl

-- The highest one.
pub bit_len_greatest :
    (w x : ℕ)
    → 0 < x
    → x < 2 ^ w
    → (n : ℕ) × (bit_len w x ≡ suc n)
      × (n < w)
      × (digit x n ≡ 1)
      × ((i : ℕ) → n < i → digit x i ≡ 0)
unfolding digit bit_len
bit_len_greatest zero x p h = absurd (omega arith)
bit_len_greatest (suc w) x p h =
    let nonzero : (x == 0) ≡ false = ground arith in
    elim (lt_or_ge 0 (x / 2)) [
      | inl more ↦
          let (n, len, fits, found, above) =
            bit_len_greatest w (x / 2) more (omega (arith, two_pow_suc w)) in
          (suc n, rw (nonzero, len) refl, omega arith, found, above_from x n above)
      | inr last ↦
          let half : x / 2 ≡ 0 = omega arith in
          let one : x ≡ 1 = omega arith in
          (
            0,
            rw (nonzero, half, bit_len-zero w) refl,
            omega arith,
            rw one refl,
            λ i l. digit-above 1 x i (omega arith) (omega arith),
          )
    ]

-- A word with a digit is not zero.
pub digit-nonzero : (x i : ℕ) → digit x i ≡ 1 → 0 < x
digit-nonzero x i e = elim (lt_or_ge 0 x) [
  | inl some ↦ some
  | inr none ↦
      let z : x ≡ 0 = omega arith in
      let d : digit x i ≡ 0 = rw z (digit-zero i) in absurd (omega arith)
]

pub bit_and_le : (x y : ℕ) → bit_and x y ≤ x
bit_and_le x y = WellFounded.induction lt_wf {C = λ n. (m : ℕ) → bit_and n m ≤ n} x step y
  where
    step : (n : ℕ) → ((k : ℕ) → k < n → (m : ℕ) → bit_and k m ≤ k) → (m : ℕ) → bit_and n m ≤ n
    step zero ih m = simp bit_and-bitwise (omega arith)
    step (suc n) ih m = omega (arith, bit_and_digit (suc n) m, ih (suc n / 2) (omega arith) (m / 2))

pub bit_or_lt : (k x y : ℕ) → x < 2 ^ k → y < 2 ^ k → bit_or x y < 2 ^ k
bit_or_lt zero x y hx hy =
    let a : x ≡ 0 = omega arith in let b : y ≡ 0 = omega arith in rw (a, b) (omega arith)
bit_or_lt (suc k) x y hx hy =
    let p = two_pow_suc k in
    omega (arith, bit_or_digit x y, bit_or_lt k (x / 2) (y / 2) (omega arith) (omega arith))

pub two_pow_lt : (k : ℕ) → k < 64 → 2 ^ k < 2 ^ 64
two_pow_lt k h = omega (arith, two_pow_le (suc k) 64 (omega arith), two_pow_suc k, two_pow_pos k)

-- One digit set, and one cleared.
pub bit_or-pow_same : (x k : ℕ) → digit (bit_or x (2 ^ k)) k ≡ 1
bit_or-pow_same x k = omega (arith, digit-bit_or x (2 ^ k) k, digit-pow_same k, digit_le x k)

pub bit_or-pow_other : (x k i : ℕ) → (i == k) ≡ false → digit (bit_or x (2 ^ k)) i ≡ digit x i
bit_or-pow_other x k i h = omega (arith, digit-bit_or x (2 ^ k) i, digit-pow_other k i h)

pub bit_and-clear_same : (x k : ℕ) → k < 64 → digit (bit_and x (2 ^ 64 - 1 - 2 ^ k)) k ≡ 0
bit_and-clear_same x k h = omega (
  arith,
  digit-bit_and x (2 ^ 64 - 1 - 2 ^ k) k,
  digit-complement 64 (2 ^ k) k (two_pow_lt k h) h,
  digit-pow_same k,
)

pub bit_and-clear_other :
    (x k i : ℕ)
    → x < 2 ^ 64
    → k < 64
    → (i == k) ≡ false
    → digit (bit_and x (2 ^ 64 - 1 - 2 ^ k)) i ≡ digit x i
bit_and-clear_other x k i hx h other = elim (lt_or_ge i 64) [
  | inl within ↦ omega (
    arith,
    digit-bit_and x (2 ^ 64 - 1 - 2 ^ k) i,
    digit-complement 64 (2 ^ k) i (two_pow_lt k h) within,
    digit-pow_other k i other,
    digit_le x i,
  )
  | inr out ↦ omega (arith, digit-bit_and x (2 ^ 64 - 1 - 2 ^ k) i, digit-above 64 x i hx out)
]
