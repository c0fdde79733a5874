-- ===== src/Ratio.antt =====
-- What the full-precision division routines promise: the exact quotient, rounded down or up, or the
-- error that says why there is none.
use rm_uniswap.Prelude.{
  ℕ, ◌+◌, ◌*◌, ◌/◌, ◌%◌, ◌^◌, ◌≤◌, ◌<◌, ◌≡◌, arith, ltb, ◌==◌, if◌then◌else◌, div_ceil, lt→ltb,
  le→ltb, div_ceil-cases, inl, inr, ◌∙◌,
}
use native.Mathlib.Nat.{mul-div_cancel, mul-mod_left}
use rm_uniswap.Error.{Result, ok, err, zero_denominator, overflow, ok_or}
use rm_uniswap.Word.{checked_add}

-- `floor(n / d)` as a `U256`.
abbrev pub exact_floor : ℕ → ℕ → Result ℕ
exact_floor n d =
    if d == 0
    then err zero_denominator
    else if ltb (n / d) (2 ^ 256)
    then ok (n / d)
    else err overflow

-- `ceil(n / d)` as a `U256`.
abbrev pub exact_ceil : ℕ → ℕ → Result ℕ
exact_ceil n d =
    if d == 0
    then err zero_denominator
    else if ltb (div_ceil n d) (2 ^ 256)
    then ok (div_ceil n d)
    else err overflow

pub exact_floor_pos :
    (n d : ℕ)
    → 0 < d
    → exact_floor n d ≡ (if ltb (n / d) (2 ^ 256) then ok (n / d) else err overflow)
exact_floor_pos n d p = ground arith

pub exact_ceil_pos :
    (n d : ℕ)
    → 0 < d
    → exact_ceil n d ≡ (if ltb (div_ceil n d) (2 ^ 256) then ok (div_ceil n d) else err overflow)
exact_ceil_pos n d p = ground arith

-- Rounding a quotient up by its remainder gives the ceiling, the overflow of the last step included.
pub round_up-exact_ceil :
    (n d : ℕ)
    → 0 < d
    → n / d < 2 ^ 256
    → (if n % d == 0 then ok (n / d) else ok_or (checked_add 256 (n / d) 1) overflow)
      ≡ exact_ceil n d
round_up-exact_ceil n d p h = elim (div_ceil-cases n d) [
  | inl (z, e) ↦ rw (exact_ceil_pos n d p, e, z, lt→ltb (n / d) (2 ^ 256) h)
  | inr (z, e) ↦ rw (exact_ceil_pos n d p, e) (ground arith)
]

-- Where the floor does not fit, neither does the ceiling.
pub exact_ceil_overflow : (n d : ℕ) → 0 < d → 2 ^ 256 ≤ n / d → exact_ceil n d ≡ err overflow
exact_ceil_overflow n d p h = elim (div_ceil-cases n d) [
  | inl (z, e) ↦ rw (exact_ceil_pos n d p, e, le→ltb (n / d) (2 ^ 256) h)
  | inr (z, e) ↦ rw (exact_ceil_pos n d p, e, le→ltb (n / d + 1) (2 ^ 256) (omega arith))
]

-- The result by the size of the quotient.
pub exact_floor_ok : (n d : ℕ) → 0 < d → n / d < 2 ^ 256 → exact_floor n d ≡ ok (n / d)
exact_floor_ok n d p h = exact_floor_pos n d p ∙ rw (lt→ltb (n / d) (2 ^ 256) h)

pub exact_floor_overflow : (n d : ℕ) → 0 < d → 2 ^ 256 ≤ n / d → exact_floor n d ≡ err overflow
exact_floor_overflow n d p h = exact_floor_pos n d p ∙ rw (le→ltb (n / d) (2 ^ 256) h)

pub exact_ceil_ok : (n d : ℕ) → 0 < d → div_ceil n d < 2 ^ 256 → exact_ceil n d ≡ ok (div_ceil n d)
exact_ceil_ok n d p h = exact_ceil_pos n d p ∙ rw (lt→ltb (div_ceil n d) (2 ^ 256) h)

-- An exact multiple needs no rounding.
pub exact_floor_multiple :
    (m d : ℕ) → 0 < d → exact_floor (m * d) d ≡ (if ltb m (2 ^ 256) then ok m else err overflow)
exact_floor_multiple m d p = exact_floor_pos (m * d) d p ∙ rw (mul-div_cancel m {n = d} p)

pub exact_ceil_multiple :
    (m d : ℕ) → 0 < d → exact_ceil (m * d) d ≡ (if ltb m (2 ^ 256) then ok m else err overflow)
exact_ceil_multiple m d p = exact_ceil_pos (m * d) d p ∙ rw ceil_multiple
  where
    ceil_multiple : div_ceil (m * d) d ≡ m
    ceil_multiple = elim (div_ceil-cases (m * d) d) [
      | inl (z, e) ↦ e ∙ mul-div_cancel m {n = d} p
      | inr (z, e) ↦ absurd (omega (arith, mul-mod_left m d))
    ]
