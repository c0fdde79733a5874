-- ===== src/SqrtPriceMath.antt =====
-- core/math/sqrt_price.rs: the next price after an amount goes in or out, and the amounts that a move
-- between two prices takes. Liquidity, prices and amounts are numbers; `NonZeroLiquidity` and
-- `NonZeroU256` are the hypothesis that they are not zero. The `to` casts lose nothing in range.
pub mod Next
pub mod Yields
pub mod Amounts
pub mod Direction
mod Tests
use Prim.Native.Nat.{bit_and}
use rm_uniswap.Prelude.{
  ℕ, ◌+◌, ◌-◌, ◌*◌, ◌/◌, ◌%◌, ◌^◌, Bool, true, false, not, ltb, leb, ◌==◌, if◌then◌else◌, ◌&&◌,
  Option, none, some, div_ceil,
}
use rm_uniswap.Prelude.Int.{ℤ, pos, negsuc, neg, abs, ltb_ℤ}
use rm_uniswap.Error.{
  Error, Result, ok, err, ◌>>=◌, ok_or, invalid_sqrt_price, price_overflow, overflow,
  insufficient_token0_reserves, insufficient_token1_reserves,
}
use rm_uniswap.SqrtPrice.{from_u256, sort}
use rm_uniswap.Word.{bit_len, shl, ◌>>>◌, wrapping_mul, wrapping_add, wrapping_sub, checked_add}

-- `Liquidity::q96`.
abbrev pub q96 : ℕ → ℕ
q96 liquidity = shl 256 liquidity 96

pub into_sqrt_price : ℕ → Result ℕ
into_sqrt_price v = ok_or (from_u256 v) invalid_sqrt_price

pub div_u384_by_u256_rounding_up : ℕ → ℕ → Result ℕ
div_u384_by_u256_rounding_up numerator denominator =
    let quotient = div_ceil numerator denominator in
    if ltb 256 (bit_len 384 quotient) then err price_overflow else ok quotient

pub liquidity_sqrt_q96_div_rounding_up : ℕ → ℕ → ℕ → Result ℕ
liquidity_sqrt_q96_div_rounding_up liquidity sqrt_price denominator =
    div_u384_by_u256_rounding_up (shl 384 (liquidity * sqrt_price) 96) denominator

pub amount1_quotient : ℕ → ℕ → Bool → Error → Result ℕ
amount1_quotient amount liquidity rounding_up overflow_error =
    let numerator = shl 256 amount 96 in
    let wide = shl 352 amount 96 in
    let quotient = if rounding_up then div_ceil wide liquidity else wide / liquidity in
    if leb (bit_len 256 amount) 160
    then ok (if rounding_up then div_ceil numerator liquidity else numerator / liquidity)
    else if ltb 160 (bit_len 352 quotient)
    then err overflow_error
    else ok quotient

pub amount0_add_overflow_fallback : ℕ → ℕ → ℕ → Result ℕ
amount0_add_overflow_fallback numerator1 sqrt_price amount = do
  denominator ← ok_or (checked_add 256 (numerator1 / sqrt_price) amount) price_overflow
  into_sqrt_price (div_ceil numerator1 denominator)

-- The price for a denominator that fits.
pub price_over : ℕ → ℕ → ℕ → Result ℕ
price_over sqrt_price liquidity denominator =
    liquidity_sqrt_q96_div_rounding_up liquidity sqrt_price denominator >>= into_sqrt_price

-- `if let Some(denominator) = numerator1.checked_add(product)`, and the fallback.
pub over_or_fallback : ℕ → ℕ → ℕ → Option ℕ → Result ℕ
over_or_fallback sqrt_price liquidity amount (some denominator) =
    price_over sqrt_price liquidity denominator
over_or_fallback sqrt_price liquidity amount none =
    amount0_add_overflow_fallback (q96 liquidity) sqrt_price amount

pub add_or_fallback : ℕ → ℕ → ℕ → ℕ → Result ℕ
unfolding over_or_fallback
add_or_fallback sqrt_price liquidity amount product =
    over_or_fallback sqrt_price liquidity amount (checked_add 256 (q96 liquidity) product)

pub get_next_sqrt_price_from_amount0_add_rounding_up : ℕ → ℕ → ℕ → Result ℕ
get_next_sqrt_price_from_amount0_add_rounding_up sqrt_price liquidity amount =
    let product = wrapping_mul 256 amount sqrt_price in
    let product_bits_upper = bit_len 256 amount + bit_len 256 sqrt_price in
    if leb product_bits_upper 255
    then price_over sqrt_price liquidity (wrapping_add 256 (q96 liquidity) product)
    else if leb product_bits_upper 256
    then add_or_fallback sqrt_price liquidity amount product
    else if ltb (amount * sqrt_price) (2 ^ 256)
    then add_or_fallback sqrt_price liquidity amount product
    else amount0_add_overflow_fallback (q96 liquidity) sqrt_price amount

pub get_next_sqrt_price_from_amount0_sub_rounding_up : ℕ → ℕ → ℕ → Result ℕ
get_next_sqrt_price_from_amount0_sub_rounding_up sqrt_price liquidity amount =
    let numerator1 = q96 liquidity in
    let product = wrapping_mul 256 amount sqrt_price in
    let product_bits_upper = bit_len 256 amount + bit_len 256 sqrt_price in
    let reserves =
      if leb numerator1 product
      then err insufficient_token0_reserves
      else price_over sqrt_price liquidity (wrapping_sub 256 numerator1 product) in
    if leb product_bits_upper 256
    then reserves
    else if leb (2 ^ 256) (amount * sqrt_price)
    then err insufficient_token0_reserves
    else reserves

pub get_next_sqrt_price_from_amount0_rounding_up : ℕ → ℕ → ℕ → Bool → Result ℕ
get_next_sqrt_price_from_amount0_rounding_up sqrt_price liquidity amount add =
    if add
    then get_next_sqrt_price_from_amount0_add_rounding_up sqrt_price liquidity amount
    else get_next_sqrt_price_from_amount0_sub_rounding_up sqrt_price liquidity amount

pub get_next_sqrt_price_from_amount1_add_rounding_down : ℕ → ℕ → ℕ → Result ℕ
get_next_sqrt_price_from_amount1_add_rounding_down sqrt_price liquidity amount = do
  quotient ← amount1_quotient amount liquidity false price_overflow
  result ← ok_or (checked_add 256 sqrt_price quotient) price_overflow
  into_sqrt_price result

pub get_next_sqrt_price_from_amount1_sub_rounding_down : ℕ → ℕ → ℕ → Result ℕ
get_next_sqrt_price_from_amount1_sub_rounding_down sqrt_price liquidity amount = do
  quotient ← amount1_quotient amount liquidity true insufficient_token1_reserves
  if leb sqrt_price quotient
      then err insufficient_token1_reserves
      else into_sqrt_price (wrapping_sub 256 sqrt_price quotient)

pub get_next_sqrt_price_from_amount1_rounding_down : ℕ → ℕ → ℕ → Bool → Result ℕ
get_next_sqrt_price_from_amount1_rounding_down sqrt_price liquidity amount add =
    if add
    then get_next_sqrt_price_from_amount1_add_rounding_down sqrt_price liquidity amount
    else get_next_sqrt_price_from_amount1_sub_rounding_down sqrt_price liquidity amount

pub get_next_sqrt_price_from_input : ℕ → ℕ → ℕ → Bool → Result ℕ
get_next_sqrt_price_from_input sqrt_price liquidity amount_in zero_for_one =
    if zero_for_one
    then get_next_sqrt_price_from_amount0_rounding_up sqrt_price liquidity amount_in true
    else get_next_sqrt_price_from_amount1_rounding_down sqrt_price liquidity amount_in true

pub get_next_sqrt_price_from_output : ℕ → ℕ → ℕ → Bool → Result ℕ
get_next_sqrt_price_from_output sqrt_price liquidity amount_out zero_for_one =
    if zero_for_one
    then get_next_sqrt_price_from_amount1_rounding_down sqrt_price liquidity amount_out false
    else get_next_sqrt_price_from_amount0_rounding_up sqrt_price liquidity amount_out false

pub get_amount0_delta_with_liquidity_delta : ℕ → ℕ → ℕ → Bool → Result ℕ
get_amount0_delta_with_liquidity_delta sqrt_a sqrt_b liquidity_delta_sqrt round_up =
    let numerator = shl 384 liquidity_delta_sqrt 96 in
    let denominator = wrapping_mul 384 sqrt_a sqrt_b in
    let result = if round_up then div_ceil numerator denominator else numerator / denominator in
    if ltb 256 (bit_len 384 result) then err overflow else ok result

-- The amount, and the product `liquidity * (sqrt_b - sqrt_a)` for reuse.
pub get_amount0_delta : ℕ → ℕ → ℕ → Bool → Result (ℕ × ℕ)
get_amount0_delta sqrt_price_a sqrt_price_b liquidity round_up =
    let (sqrt_a, sqrt_b) = sort sqrt_price_a sqrt_price_b in
    let diff = sqrt_b - sqrt_a in
    let liquidity_delta_sqrt = liquidity * diff in
    if diff == 0
    then ok (0, 0)
    else (get_amount0_delta_with_liquidity_delta sqrt_price_a sqrt_price_b liquidity_delta_sqrt
          round_up
        >>= λ amount. ok (amount, liquidity_delta_sqrt))

-- `liquidity_delta_sqrt >> 96`, rounded up where bits are lost and the caller asks for it.
pub get_amount1_delta_with_liquidity_delta : ℕ → Bool → ℕ
get_amount1_delta_with_liquidity_delta liquidity_delta_sqrt round_up =
    let quotient = liquidity_delta_sqrt >>> 96 in
    if round_up && not (bit_and liquidity_delta_sqrt (2 ^ 96 - 1) == 0)
    then quotient + 1
    else quotient

pub get_amount1_delta : ℕ → ℕ → ℕ → Bool → Result (ℕ × ℕ)
get_amount1_delta sqrt_price_a sqrt_price_b liquidity round_up =
    let (sqrt_a, sqrt_b) = sort sqrt_price_a sqrt_price_b in
    let diff = sqrt_b - sqrt_a in
    let liquidity_delta_sqrt = liquidity * diff in
    let quotient = liquidity_delta_sqrt >>> 96 in
    if diff == 0
    then ok (0, 0)
    else if round_up && not (bit_and liquidity_delta_sqrt (2 ^ 96 - 1) == 0)
    then ok (quotient + 1, liquidity_delta_sqrt)
    else ok (quotient, liquidity_delta_sqrt)
