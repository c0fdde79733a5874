-- ===== src/TickKey/Encoding.antt =====
-- About `encode` and `decode`: flipping the sign bit of a signed number.
use Prim.Native.Nat.{bit_xor}
use native.Mathlib.Nat.{mod-eq_of_lt, mod-lt, le_refl, mul-div_cancel}
use rm_uniswap.Prelude.{
  ℕ, zero, suc, ◌+◌, ◌-◌, ◌*◌, ◌/◌, ◌%◌, ◌^◌, ◌<◌, ◌≡◌, refl, ap, ◌∙◌, arith, inl, inr, lt_or_ge,
  lt→ltb, le→ltb, div_unique, mod_unique, mul_le, pred_mul,
}
use rm_uniswap.Prelude.Int.{ℤ, pos, negsuc}
use rm_uniswap.TickKey.{as_u32, encode, decode, as_i32, shift_right}
use rm_uniswap.Word.{shl}
use rm_uniswap.Word.Bits.{bit_xor_digit, differ_zero}
use rm_uniswap.Word.Fields.{bit_and_mask}
use rm_uniswap.Word.Pow.{two_pow_suc, two_pow_pos, two_pow_add, two_pow_le}

-- Setting and clearing the bit above a field by `^`.
set_top : (k x : ℕ) → x < 2 ^ k → bit_xor x (2 ^ k) ≡ x + 2 ^ k
set_top zero x h = let z : x ≡ 0 = omega arith in rw z refl
set_top (suc k) x h =
    let half : 2 ^ suc k / 2 ≡ 2 ^ k = omega (arith, two_pow_suc k) in
    let even : 2 ^ suc k % 2 ≡ 0 = omega (arith, two_pow_suc k) in
    let digit = differ_zero (x % 2) in
    rw
      (
        bit_xor_digit x (2 ^ suc k),
        half,
        even,
        digit,
        set_top k (x / 2) (omega (arith, two_pow_suc k)),
      )
      (omega (arith, two_pow_suc k))

clear_top : (k x : ℕ) → x < 2 ^ k → bit_xor (x + 2 ^ k) (2 ^ k) ≡ x
clear_top zero x h = let z : x ≡ 0 = omega arith in rw z refl
clear_top (suc k) x h =
    let half : 2 ^ suc k / 2 ≡ 2 ^ k = omega (arith, two_pow_suc k) in
    let even : 2 ^ suc k % 2 ≡ 0 = omega (arith, two_pow_suc k) in
    let digit = differ_zero ((x + 2 ^ suc k) % 2) in
    let upper : (x + 2 ^ suc k) / 2 ≡ x / 2 + 2 ^ k = omega (arith, two_pow_suc k) in
    rw
      (
        bit_xor_digit (x + 2 ^ suc k) (2 ^ suc k),
        half,
        even,
        digit,
        upper,
        clear_top k (x / 2) (omega (arith, two_pow_suc k)),
      )
      (omega (arith, two_pow_suc k))

-- What fits `suc k` bits with a sign.
pub data Fits (k : ℕ) : ℤ → Type 0 where
  fits_pos : {n : ℕ} → n < 2 ^ k → Fits k (pos n)
  fits_neg : {n : ℕ} → n < 2 ^ k → Fits k (negsuc n)

-- The number moved up by `2^k`.
abbrev pub shifted_up : ℕ → ℤ → ℕ
shifted_up k (pos n) = n + 2 ^ k
shifted_up k (negsuc n) = 2 ^ k - 1 - n

module _ (k : ℕ) (k_lt : k < 32) where
  parts : 2 ^ 32 ≡ 2 ^ (31 - k) * 2 ^ suc k
  parts = two_pow_add (31 - k) (suc k) 32 (omega arith)

  top : 2 ^ 31 ≡ 2 ^ k * 2 ^ (31 - k)
  top = two_pow_add k (31 - k) 31 (omega arith)

  mask_lem : (2 ^ 32 - 1) / 2 ^ (32 - suc k) ≡ 2 ^ suc k - 1
  mask_lem =
      let gap : 32 - suc k ≡ 31 - k = omega arith in
      let y = 2 ^ (31 - k) in
      rw gap (
        div_unique y (2 ^ suc k - 1) {r = y - 1}
          (omega (arith, parts, pred_mul (2 ^ suc k) y (two_pow_pos (suc k)), two_pow_pos (31 - k)))
          (omega (arith, two_pow_pos (31 - k))))

  sign_lem : shl 32 1 (suc k - 1) ≡ 2 ^ k
  sign_lem =
      let less : suc k - 1 ≡ k = omega arith in
      rw less (
        mod-eq_of_lt {n = 1 * 2 ^ k} {m = 2 ^ 32} (omega (arith, two_pow_le k 31 (omega arith)))
        ∙ omega arith)

  -- A negative number in `suc k` bits.
  wrapped : (n : ℕ) → n < 2 ^ k → (2 ^ 32 - 1 - n) % 2 ^ suc k ≡ 2 ^ k - 1 - n + 2 ^ k
  wrapped n h =
      mod_unique (2 ^ suc k) (2 ^ (31 - k) - 1)
        (omega (
          arith,
          parts,
          pred_mul (2 ^ (31 - k)) (2 ^ suc k) (two_pow_pos (31 - k)),
          two_pow_suc k,
          two_pow_le (suc k) 32 (omega arith),
        ))
        (omega (arith, two_pow_suc k))

  pub encode-shifted_up : (c : ℤ) → Fits k c → encode c (suc k) ≡ shifted_up k c
  unfolding encode
  encode-shifted_up (pos n) (fits_pos h) =
      let small : n % 2 ^ suc k ≡ n = mod-eq_of_lt (omega (arith, two_pow_suc k)) in
      rw (mask_lem, sign_lem, bit_and_mask (suc k) n, small) (set_top k n h)
  encode-shifted_up (negsuc n) (fits_neg h) =
      rw (mask_lem, sign_lem, bit_and_mask (suc k) (2 ^ 32 - 1 - n), wrapped n h)
        (clear_top k (2 ^ k - 1 - n) (omega arith))

  -- Every encoding fits its bits.
  pub encode_lt : (c : ℤ) → encode c (suc k) < 2 ^ suc k
  unfolding encode
  encode_lt c =
      let y = as_u32 c % 2 ^ suc k in
      let small : y < 2 ^ suc k = mod-lt (as_u32 c) {m = 2 ^ suc k} (two_pow_pos (suc k)) in
      rw (mask_lem, sign_lem, bit_and_mask (suc k) (as_u32 c))
        (elim (lt_or_ge y (2 ^ k)) [
          | inl low ↦ omega (arith, set_top k y low, two_pow_suc k)
          | inr high ↦
              let split : y ≡ y - 2 ^ k + 2 ^ k = omega arith in
              omega (
                arith,
                ap (λ (t : ℕ). bit_xor t (2 ^ k)) split,
                clear_top k (y - 2 ^ k) (omega (arith, two_pow_suc k)),
                two_pow_suc k,
              )
        ])

  -- The shifts of `decode` put the sign of `suc k` bits at the top, and bring it back.
  extend_pos :
      (n : ℕ) → n < 2 ^ k → shift_right (as_i32 (shl 32 n (32 - suc k))) (32 - suc k) ≡ pos n
  extend_pos n h =
      let gap : 32 - suc k ≡ 31 - k = omega arith in
      let y = 2 ^ (31 - k) in
      let below = mul_le (n + 1) y (2 ^ k) y (omega arith) (le_refl y) in
      let kept : n * y % 2 ^ 32 ≡ n * y = mod-eq_of_lt (omega (arith, top, two_pow_pos (31 - k))) in
      rw (
        gap,
        kept,
        lt→ltb (n * y) (2 ^ 31) (omega (arith, top, two_pow_pos (31 - k))),
        mul-div_cancel n {n = y} (two_pow_pos (31 - k)),
      )

  extend_neg :
      (n : ℕ)
      → n < 2 ^ k
      → shift_right (as_i32 (shl 32 (2 ^ k - 1 - n + 2 ^ k) (32 - suc k))) (32 - suc k) ≡ negsuc n
  extend_neg n h =
      let gap : 32 - suc k ≡ 31 - k = omega arith in
      let y = 2 ^ (31 - k) in
      let v = 2 ^ k - 1 - n + 2 ^ k in
      let below = mul_le (n + 1) y (2 ^ k) y (omega arith) (le_refl y) in
      let whole : v + (n + 1) ≡ 2 * 2 ^ k = omega arith in
      let product : (v + (n + 1)) * y ≡ 2 * 2 ^ k * y = ap (λ (t : ℕ). t * y) whole in
      let kept : v * y % 2 ^ 32 ≡ v * y = mod-eq_of_lt (omega (arith, top, two_pow_pos (31 - k))) in
      let rest : (2 ^ 32 - 1 - v * y) / y ≡ n =
        div_unique y n {r = y - 1} (omega (arith, top, two_pow_pos (31 - k)))
          (omega (arith, two_pow_pos (31 - k))) in
      rw (gap, kept, le→ltb (v * y) (2 ^ 31) (omega (arith, top)), rest)

  pub decode-shifted_up : (c : ℤ) → Fits k c → decode (shifted_up k c) (suc k) ≡ c
  unfolding decode
  decode-shifted_up (pos n) (fits_pos h) = rw (sign_lem, clear_top k n h) (extend_pos n h)
  decode-shifted_up (negsuc n) (fits_neg h) =
      rw (sign_lem, set_top k (2 ^ k - 1 - n) (omega arith)) (extend_neg n h)
