-- ===== src/FullMath/PowerOfTwo.antt =====
-- The bit tricks of `mul_div_core`: the test for a power of two, the lowest set bit, and the shift of
-- a two-word product.
use Prim.Native.Nat.{bit_and}
use mathlib.Core.Path.{subst}
use native.Mathlib.Nat.{mod-lt, le_refl, div-add-mod', mul-add-div}
use rm_uniswap.Prelude.{
  ℕ, zero, suc, ◌+◌, ◌-◌, ◌*◌, ◌/◌, ◌%◌, ◌^◌, ◌≤◌, ◌<◌, ◌≡◌, refl, sym, ap, mul_le, mod_unique,
  div_lt_of_lt_mul, ◌∙◌, arith, inl, inr, true, Bool-cases, ◌==◌,
}
use rm_uniswap.FullMath.{is_power_of_two, shift_product}
use rm_uniswap.Word.{trailing_zeros, shl}
use rm_uniswap.Word.Bits.{bit_and_digit}
use rm_uniswap.Word.Fields.{bit_and_self, bit_or_fields_comm}
use rm_uniswap.Word.Pow.{two_pow_suc, two_pow_pos, two_pow_add}
use rm_uniswap.Word.Count.{trailing_zeros_odd}

-- `x & (x - 1)` clears the lowest set bit.
pub bit_and_pred :
    (k q : ℕ) → bit_and ((2 * q + 1) * 2 ^ k) ((2 * q + 1) * 2 ^ k - 1) ≡ 2 * q * 2 ^ k
bit_and_pred zero q = ground (arith, bit_and_digit (2 * q + 1) (2 * q), bit_and_self q)
bit_and_pred (suc k) q = ground (
  arith,
  ap (λ (t : ℕ). (2 * q + 1) * t) (two_pow_suc k),
  ap (λ (t : ℕ). 2 * q * t) (two_pow_suc k),
  mul_le 1 1 (2 * q + 1) (2 ^ k) (omega arith) (two_pow_pos k),
  bit_and_digit ((2 * q + 1) * 2 ^ suc k) ((2 * q + 1) * 2 ^ suc k - 1),
  bit_and_pred k q,
)

-- A nonzero word passes the test exactly when it is the power of two of its low zeros.
pub is_power_of_two-true :
    (x : ℕ)
    → x < 2 ^ 256
    → is_power_of_two x ≡ true
    → (x ≡ 2 ^ trailing_zeros 256 x) × (trailing_zeros 256 x < 256)
unfolding is_power_of_two
is_power_of_two-true x h t =
    let positive : 0 < x = ground arith in
    let (q, e, lt) = trailing_zeros_odd 256 x positive h in
    let k = trailing_zeros 256 x in
    let cleared : bit_and x (x - 1) ≡ 0 = ground arith in
    let both : bit_and x (x - 1) ≡ 2 * q * 2 ^ k =
      subst (λ (y : ℕ). bit_and y (y - 1) ≡ 2 * q * 2 ^ k) (sym e) (bit_and_pred k q) in
    let q_zero : q ≡ 0 = eq_zero q (2 ^ k) (two_pow_pos k) (omega arith) in
    (e ∙ rw q_zero (omega arith), lt)
  where
    eq_zero : (q t : ℕ) → 1 ≤ t → 2 * q * t ≡ 0 → q ≡ 0
    eq_zero zero t h e = refl
    eq_zero (suc q) t h e = absurd (omega arith)

module _ (p q a b w : ℕ) (split : w ≡ a * b) (a_pos : 0 < a) (b_pos : 0 < b) where
  digit_lt : (r : ℕ) → r < b → p % a * b + r < a * b
  digit_lt r h =
      grind (arith, mul_le (p % a + 1) b a b (omega (arith, mod-lt p {m = a} a_pos)) (le_refl b))

  -- A high digit, cut to a word, and the same with a low digit under it.
  low_digit : (r : ℕ) → r < b → (p * b + r) % w ≡ p % a * b + r
  low_digit r h = rw split (
      mod_unique (a * b) (p / a) {n = p * b + r} {r = p % a * b + r}
        (omega (arith, ap (λ (t : ℕ). t * b) (div-add-mod' p a))) (digit_lt r h))

  div_digits : (p * w + q) / a ≡ p * b + q / a
  div_digits = ap (λ (t : ℕ). (t + q) / a) (e split) ∙ mul-add-div {m = a} a_pos (p * b) q
    where
      e : w ≡ a * b → p * w ≡ a * (p * b)
      e h = rw h (omega arith)

-- Shifting a two-word number right, cut to a word.
pub shift_product_lem :
    (prod0 prod1 s : ℕ)
    → s ≤ 256
    → prod0 < 2 ^ 256
    → shift_product prod0 prod1 s ≡ (prod1 * 2 ^ 256 + prod0) / 2 ^ s % 2 ^ 256
unfolding shift_product
shift_product_lem prod0 prod1 s h h0 = elim (Bool-cases (s == 0)) [
  | inl z ↦ let e : s ≡ 0 = ground arith in rw (z, e) (omega arith)
  | inr nz ↦
      let t = 256 - s in
      let split : 2 ^ 256 ≡ 2 ^ s * 2 ^ t = two_pow_add s t 256 (omega arith) in
      let low : prod0 / 2 ^ s < 2 ^ t =
        div_lt_of_lt_mul prod0 (2 ^ s) (2 ^ t) (two_pow_pos s) (omega (arith, split)) in
      let cut : shl 256 prod1 t ≡ prod1 % 2 ^ s * 2 ^ t =
        ap (λ (u : ℕ). u % 2 ^ 256) (omega arith)
        ∙ low_digit prod1 0 (2 ^ s) (2 ^ t) (2 ^ 256) split (two_pow_pos s) (two_pow_pos t) 0
            (two_pow_pos t)
        ∙ omega arith in
      rw (nz, cut, bit_or_fields_comm t (prod1 % 2 ^ s) (prod0 / 2 ^ s) low)
        (sym (
          ap (λ (u : ℕ). u % 2 ^ 256)
            (div_digits prod1 prod0 (2 ^ s) (2 ^ t) (2 ^ 256) split (two_pow_pos s) (two_pow_pos t))
          ∙ low_digit prod1 0 (2 ^ s) (2 ^ t) (2 ^ 256) split (two_pow_pos s) (two_pow_pos t)
              (prod0 / 2 ^ s) low))
]
