-- ===== src/SqrtPriceMath/Amounts.antt =====
-- About `get_amount0_delta` and `get_amount1_delta`: the amounts that a move between two prices takes.
use Prim.Native.Nat.{bit_and}
use native.Mathlib.Nat.{mod-eq_of_lt}
use rm_uniswap.Prelude.{
  ℕ, ◌+◌, ◌-◌, ◌*◌, ◌/◌, ◌%◌, ◌^◌, ◌≤◌, ◌<◌, ◌≡◌, refl, ap, arith, inl, inr, true, false, not, Bool,
  Bool-cases, ◌⊎◌, ◌==◌, if◌then◌else◌, ◌&&◌, lt_or_ge, pos_nonzero, lt→ltb, le→ltb, div_ceil,
  div_ceil_le, div_ceil-cases, mul_lt, mul_le,
}
use rm_uniswap.Error.{Result, ok}
use rm_uniswap.SqrtPrice.{IsPrice}
use rm_uniswap.SqrtPriceMath.{
  get_amount0_delta, get_amount0_delta_with_liquidity_delta, get_amount1_delta,
  get_amount1_delta_with_liquidity_delta,
}
use rm_uniswap.Word.{bit_len, shl, wrapping_mul}
use rm_uniswap.Word.Count.{bit_len-le}
use rm_uniswap.Word.Fields.{bit_and_mask}

-- A quotient, rounded up or down.
abbrev pub rounded : Bool → ℕ → ℕ → ℕ
rounded round_up n d = if round_up then div_ceil n d else n / d

pub rounded_le : (up : Bool) (n d k : ℕ) → 0 < d → n ≤ k * d → rounded up n d ≤ k
rounded_le true n d k pos h = div_ceil_le n d k pos h
rounded_le false n d k pos h = elim (div_ceil-cases n d) [
  | inl (z, e) ↦ omega (arith, div_ceil_le n d k pos h)
  | inr (z, e) ↦ omega (arith, div_ceil_le n d k pos h)
]

rounded_zero : (up : Bool) (d : ℕ) → 0 < d → rounded up 0 d ≡ 0
rounded_zero up d pos = omega (arith, rounded_le up 0 d 0 pos (omega arith))

-- The amount of token0 for a liquidity times a price difference of `x`.
pub amount0_with_liquidity_lem :
    (a b x : ℕ) (up : Bool)
    → IsPrice a
    → IsPrice b
    → x ≤ 2 ^ 128 * a ⊎ x ≤ 2 ^ 128 * b
    → get_amount0_delta_with_liquidity_delta a b x up ≡ ok (rounded up (x * 2 ^ 96) (a * b))
unfolding get_amount0_delta_with_liquidity_delta
amount0_with_liquidity_lem a b x up ha hb hx =
    let both = mul_lt a b (2 ^ 160) (2 ^ 160) (omega arith) (omega arith) in
    let a_pos : 0 < a = omega arith in
    let b_pos : 0 < b = omega arith in
    let a_le = mul_le a 1 a b (omega arith) b_pos in
    let b_le = mul_le 1 b a b a_pos (omega arith) in
    let kept : shl 384 x 96 ≡ x * 2 ^ 96 =
      mod-eq_of_lt {n = x * 2 ^ 96} {m = 2 ^ 384} (omega arith) in
    let whole : wrapping_mul 384 a b ≡ a * b =
      mod-eq_of_lt {n = a * b} {m = 2 ^ 384} (omega arith) in
    let q = rounded up (x * 2 ^ 96) (a * b) in
    let fits = rounded_le up (x * 2 ^ 96) (a * b) (2 ^ 224) (omega arith) (omega arith) in
    rw (kept, whole, le→ltb 256 (bit_len 384 q) (bit_len-le 384 q 256 (omega arith)))

pub amount1_with_liquidity_lem :
    (x : ℕ) (up : Bool) → get_amount1_delta_with_liquidity_delta x up ≡ rounded up x (2 ^ 96)
unfolding get_amount1_delta_with_liquidity_delta
amount1_with_liquidity_lem x false = refl
amount1_with_liquidity_lem x true = elim (div_ceil-cases x (2 ^ 96)) [
  | inl (z, e) ↦ rw (bit_and_mask 96 x, z, e)
  | inr (z, e) ↦ rw (bit_and_mask 96 x, e) (ground arith)
]

abbrev pub ok_pair : ℕ → ℕ → Result (ℕ × ℕ)
ok_pair amount product = ok (amount, product)

-- A price difference that is zero gives no amount.
no_difference :
    (up : Bool) (l diff n d : ℕ)
    → 0 < d
    → diff ≡ 0
    → n ≡ l * diff * 2 ^ 96 ⊎ n ≡ l * diff
    → ok_pair 0 0 ≡ ok_pair (rounded up n d) (l * diff)
no_difference up l diff n d pos e h =
    let none_left : l * diff ≡ 0 = omega (arith, ap (λ (t : ℕ). l * t) e) in
    let z : n ≡ 0 = elim h [ inl k ↦ omega arith | inr k ↦ omega arith ] in
    rw (none_left, z, rounded_zero up d pos)

module _ (lo hi l : ℕ) (up : Bool) (lo_price : IsPrice lo) (hi_price : IsPrice hi)
    (small : l < 2 ^ 128) (le : lo ≤ hi) where
  pub product_le : l * (hi - lo) ≤ 2 ^ 128 * hi
  product_le = omega (arith, mul_le l (hi - lo) (2 ^ 128) hi (omega arith) (omega arith))

  -- Token0: `liquidity * (hi - lo) * 2^96 / (lo * hi)`, in either order of the prices.
  pub amount0_delta_up_lem :
      get_amount0_delta lo hi l up
      ≡ ok (rounded up (l * (hi - lo) * 2 ^ 96) (lo * hi), l * (hi - lo))
  unfolding get_amount0_delta
  amount0_delta_up_lem = elim (lt_or_ge lo hi) [
    | inl lt ↦ rw (
      lt→ltb lo hi lt,
      pos_nonzero (hi - lo) (omega arith),
      amount0_with_liquidity_lem lo hi (l * (hi - lo)) up lo_price hi_price (inr product_le),
    )
    | inr ge ↦
        let same : hi ≡ lo = omega arith in
        let none_left : lo - lo ≡ 0 = omega arith in
        rw (same, le→ltb lo lo (omega arith), none_left)
          (no_difference up l 0 (l * 0 * 2 ^ 96) (lo * lo)
            (omega (arith, mul_le 1 1 lo lo (omega arith) (omega arith))) refl (inl refl))
  ]

  pub amount0_delta_down_lem :
      get_amount0_delta hi lo l up
      ≡ ok (rounded up (l * (hi - lo) * 2 ^ 96) (hi * lo), l * (hi - lo))
  unfolding get_amount0_delta
  amount0_delta_down_lem = rw (le→ltb hi lo le) (elim (lt_or_ge lo hi) [
    | inl lt ↦ rw (
      pos_nonzero (hi - lo) (omega arith),
      amount0_with_liquidity_lem hi lo (l * (hi - lo)) up hi_price lo_price (inl product_le),
    )
    | inr ge ↦
        let none_left : hi - lo ≡ 0 = omega arith in
        rw none_left (
          no_difference up l 0 (l * 0 * 2 ^ 96) (hi * lo)
            (omega (arith, mul_le 1 1 hi lo (omega arith) (omega arith))) refl (inl refl))
  ])

  amount1_test :
      (x : ℕ)
      → (if up && not (bit_and x (2 ^ 96 - 1) == 0)
          then ok_pair (x / 2 ^ 96 + 1) x
          else ok_pair (x / 2 ^ 96) x)
        ≡ ok_pair (rounded up x (2 ^ 96)) x
  amount1_test x = elim (div_ceil-cases x (2 ^ 96)) [
    | inl (z, e) ↦
        rw (bit_and_mask 96 x, z) (elim (Bool-cases up) [ inl b ↦ rw (b, e) | inr b ↦ rw b ])
    | inr (z, e) ↦
        rw (bit_and_mask 96 x, pos_nonzero (x % 2 ^ 96) z)
          (elim (Bool-cases up) [ inl b ↦ rw (b, e) | inr b ↦ rw b ])
  ]

  -- Token1: `liquidity * (hi - lo) / 2^96`, in either order of the prices.
  pub amount1_delta_up_lem :
      get_amount1_delta lo hi l up ≡ ok (rounded up (l * (hi - lo)) (2 ^ 96), l * (hi - lo))
  unfolding get_amount1_delta
  amount1_delta_up_lem = elim (lt_or_ge lo hi) [
    | inl lt ↦
        rw (lt→ltb lo hi lt, pos_nonzero (hi - lo) (omega arith)) (amount1_test (l * (hi - lo)))
    | inr ge ↦
        let same : hi ≡ lo = omega arith in
        let none_left : lo - lo ≡ 0 = omega arith in
        rw (same, le→ltb lo lo (omega arith), none_left)
          (no_difference up l 0 (l * 0) (2 ^ 96) (omega arith) refl (inr refl))
  ]

  pub amount1_delta_down_lem :
      get_amount1_delta hi lo l up ≡ ok (rounded up (l * (hi - lo)) (2 ^ 96), l * (hi - lo))
  unfolding get_amount1_delta
  amount1_delta_down_lem = rw (le→ltb hi lo le) (elim (lt_or_ge lo hi) [
    | inl lt ↦ rw (pos_nonzero (hi - lo) (omega arith)) (amount1_test (l * (hi - lo)))
    | inr ge ↦
        let none_left : hi - lo ≡ 0 = omega arith in
        rw none_left (no_difference up l 0 (l * 0) (2 ^ 96) (omega arith) refl (inr refl))
  ])

  -- The amounts are far below a word, which leaves room for the fee.
  pub amount0_small : rounded up (l * (hi - lo) * 2 ^ 96) (lo * hi) ≤ 2 ^ 224
  amount0_small =
      let hi_le = mul_le 1 hi lo hi (omega arith) (omega arith) in
      rounded_le up (l * (hi - lo) * 2 ^ 96) (lo * hi) (2 ^ 224) (omega arith)
        (omega (arith, product_le))

  pub amount1_small : rounded up (l * (hi - lo)) (2 ^ 96) ≤ 2 ^ 224
  amount1_small =
      rounded_le up (l * (hi - lo)) (2 ^ 96) (2 ^ 224) (omega arith) (omega (arith, product_le))

-- The difference of two numbers, in either order.
abbrev pub distance : ℕ → ℕ → ℕ
distance a b = a - b + (b - a)

-- For any two prices in range and a 128-bit liquidity, `get_amount0_delta` succeeds with `l * |a -
-- b| * 2^96 / (a * b)`, rounded as asked, and the product `l * |a - b|`.
pub get_amount0_delta_lem :
    (a b l : ℕ) (up : Bool)
    → IsPrice a
    → IsPrice b
    → l < 2 ^ 128
    → get_amount0_delta a b l up
      ≡ ok_pair (rounded up (l * distance a b * 2 ^ 96) (a * b)) (l * distance a b)
get_amount0_delta_lem a b l up ha hb small = elim (lt_or_ge a b) [
  | inl lt ↦
      let gap : distance a b ≡ b - a = omega arith in
      rw gap (amount0_delta_up_lem a b l up ha hb small (omega arith))
  | inr ge ↦
      let gap : distance a b ≡ a - b = omega arith in
      rw gap (amount0_delta_down_lem b a l up hb ha small ge)
]

-- For any two prices in range and a 128-bit liquidity, `get_amount1_delta` succeeds with `l * |a -
-- b| / 2^96`, rounded as asked, and the product `l * |a - b|`.
pub get_amount1_delta_lem :
    (a b l : ℕ) (up : Bool)
    → IsPrice a
    → IsPrice b
    → l < 2 ^ 128
    → get_amount1_delta a b l up
      ≡ ok_pair (rounded up (l * distance a b) (2 ^ 96)) (l * distance a b)
get_amount1_delta_lem a b l up ha hb small = elim (lt_or_ge a b) [
  | inl lt ↦
      let gap : distance a b ≡ b - a = omega arith in
      rw gap (amount1_delta_up_lem a b l up ha hb small (omega arith))
  | inr ge ↦
      let gap : distance a b ≡ a - b = omega arith in
      rw gap (amount1_delta_down_lem b a l up hb ha small ge)
]
