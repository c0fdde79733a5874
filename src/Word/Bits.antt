-- ===== src/Word/Bits.antt =====
-- The lowest binary digit of `&`, `|` and `^`, and what follows from it at every width.
use Prim.Native.Nat.{digits, bitwise, bit_and-bitwise, bit_or-bitwise, bit_xor-bitwise}
use Prim.Native.Nat.{bit_and, bit_or, bit_xor, differ}
use mathlib.Core.WellFounded
use native.Mathlib.Nat.{le_refl}
use rm_uniswap.Prelude.{
  ℕ, zero, suc, ◌+◌, ◌-◌, ◌*◌, ◌/◌, ◌%◌, ◌≤◌, ◌<◌, ◌≡◌, refl, ap, ◌∙◌, arith, min, max,
}
use rm_uniswap.Prelude.Order.{lt_wf}

-- The library computes an operation digit by digit, on fuel; `rest` says what is left of the second
-- number once the first has run out, and `op` joins two digits.
module _ (rest : ℕ → ℕ) (op : ℕ → ℕ → ℕ) where
  -- One more unit of fuel than the number needs changes nothing.
  one_more : (n x y : ℕ) → x ≤ n → digits rest op (suc n) x y ≡ digits rest op n x y
  one_more zero zero y h = refl
  one_more zero (suc x) y h = absurd (omega arith)
  one_more (suc n) zero y h = refl
  one_more (suc n) (suc x) y h = rw (one_more n (suc x / 2) (y / 2) (omega arith))

  more : (k m n x y : ℕ) → m ≡ k + n → x ≤ n → digits rest op m x y ≡ digits rest op n x y
  more zero m n x y e h = ap (λ (fuel : ℕ). digits rest op fuel x y) (omega arith)
  more (suc k) zero n x y e h = absurd (omega arith)
  more (suc k) (suc m) n x y e h = one_more m x y (omega arith) ∙ more k m n x y (omega arith) h

  lowest :
      (x y : ℕ)
      → bitwise rest op (suc x) y ≡ op (suc x % 2) (y % 2) + 2 * bitwise rest op (suc x / 2) (y / 2)
  lowest x y =
      let half = suc x / 2 in
      omega (arith, more (x - half) x half half (y / 2) (omega arith) (le_refl half))

pub bit_xor_digit : (x y : ℕ) → bit_xor x y ≡ differ (x % 2) (y % 2) + 2 * bit_xor (x / 2) (y / 2)
bit_xor_digit (suc x) y = simp bit_xor-bitwise (lowest (λ r. r) differ x y)
bit_xor_digit zero y = simp bit_xor-bitwise (omega arith)

pub bit_and_digit : (x y : ℕ) → bit_and x y ≡ min (x % 2) (y % 2) + 2 * bit_and (x / 2) (y / 2)
bit_and_digit (suc x) y = simp bit_and-bitwise (lowest (λ r. 0) min x y)
bit_and_digit zero y = simp bit_and-bitwise (omega arith)

pub bit_or_digit : (x y : ℕ) → bit_or x y ≡ max (x % 2) (y % 2) + 2 * bit_or (x / 2) (y / 2)
bit_or_digit (suc x) y = simp bit_or-bitwise (lowest (λ r. r) max x y)
bit_or_digit zero y = simp bit_or-bitwise (omega arith)

pub bit_or-zero : (a : ℕ) → bit_or a 0 ≡ a
bit_or-zero a =
    WellFounded.induction lt_wf {C = λ n. bit_or n 0 ≡ n} a
      λ n ih. ground (arith, bit_or_digit n 0, ih (n / 2))

pub bit_and-zero : (a : ℕ) → bit_and a 0 ≡ 0
bit_and-zero a =
    WellFounded.induction lt_wf {C = λ n. bit_and n 0 ≡ 0} a
      λ n ih. ground (arith, bit_and_digit n 0, ih (n / 2))

zero-bit_or : (b : ℕ) → bit_or 0 b ≡ b
zero-bit_or b = simp bit_or-bitwise

pub bit_or_comm : (a b : ℕ) → bit_or a b ≡ bit_or b a
bit_or_comm a b = WellFounded.induction lt_wf {C = λ n. (m : ℕ) → bit_or n m ≡ bit_or m n} a step b
  where
    step :
        (n : ℕ)
        → ((k : ℕ) → k < n → (m : ℕ) → bit_or k m ≡ bit_or m k)
        → (m : ℕ) → bit_or n m ≡ bit_or m n
    step zero ih m = omega (arith, zero-bit_or m, bit_or-zero m)
    step (suc n) ih m = omega (
      arith,
      bit_or_digit (suc n) m,
      bit_or_digit m (suc n),
      ih (suc n / 2) (omega arith) (m / 2),
    )

pub differ_zero : (r : ℕ) → differ r 0 ≡ r
differ_zero zero = refl
differ_zero (suc r) = refl

pub bit_xor-zero : (a : ℕ) → bit_xor a 0 ≡ a
bit_xor-zero a = WellFounded.induction lt_wf {C = λ n. bit_xor n 0 ≡ n} a step
  where
    step : (n : ℕ) → ((m : ℕ) → m < n → bit_xor m 0 ≡ m) → bit_xor n 0 ≡ n
    step zero ih = refl
    step (suc n) ih =
        omega
          (arith, bit_xor_digit (suc n) 0, ih (suc n / 2) (omega arith), differ_zero (suc n % 2))

pub differ_one : (r : ℕ) → r < 2 → differ r 1 ≡ 1 - r
differ_one zero h = refl
differ_one (suc zero) h = refl
differ_one (suc (suc r)) h = absurd (omega arith)
