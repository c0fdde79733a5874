-- ===== src/Error.antt =====
-- core/error.rs, and `Result` with that error type.
use rm_uniswap.Prelude.{Option, none, some, ◌≡◌, refl, ◌⊎◌, inl, inr}

-- `enum Error`: the one error code of every public operation.
pub data Error : Type 0 where
  zero_denominator overflow signed_overflow i128_overflow zero_price zero_liquidity : Error
  price_overflow price_underflow insufficient_token0_reserves insufficient_token1_reserves : Error
  fee_too_large invalid_lp_fee invalid_hook_config max_fee_exact_out invalid_tick : Error
  invalid_sqrt_price invalid_tick_spacing zero_value price_limit_already_exceeded : Error
  price_limit_out_of_bounds invalid_pool_sqrt_price missing_initialized_tick : Error
  liquidity_underflow liquidity_overflow amount_overflow iteration_limit_exceeded : Error
  position_not_found position_already_exists position_not_empty unauthorized slippage_exceeded :
      Error

-- `Result<X, Error>`.
pub data Result {ℓ} (X : Type ℓ) : Type ℓ where
  err : Error → Result X
  ok : X → Result X

-- The `?` operator: an error returns at once.
abbrev pub ◌>>=◌ {ℓ κ} : {X : Type ℓ} {Y : Type κ} → Result X → (X → Result Y) → Result Y
err e >>= next = err e
ok x >>= next = next x

infixl 5 ◌>>=◌
-- `Option::ok_or`.
abbrev pub ok_or {ℓ} : {A : Type ℓ} → Option A → Error → Result A
ok_or none e = err e
ok_or (some a) e = ok a

-- A chain that succeeds succeeded at its first link.
pub >>=-eq-ok {ℓ κ} :
    {X : Type ℓ} {Y : Type κ} (r : Result X) (next : X → Result Y) {y : Y}
    → (r >>= next) ≡ ok y
    → (x : X) × (r ≡ ok x) × (next x ≡ ok y)
>>=-eq-ok (err e) next h = cc
>>=-eq-ok (ok x) next h = (x, refl, h)

pub Result-cases {ℓ} :
    {A : Type ℓ} (r : Result A) → ((a : A) × (r ≡ ok a)) ⊎ ((e : Error) × (r ≡ err e))
Result-cases (ok a) = inl (a, refl)
Result-cases (err e) = inr (e, refl)

pub ok_injective {ℓ} : {A : Type ℓ} {a b : A} → ok a ≡ ok b → a ≡ b
ok_injective h = cc

pub ok_or-eq-ok {ℓ} :
    {A : Type ℓ} (o : Option A) (e : Error) {a : A} → ok_or o e ≡ ok a → o ≡ some a
ok_or-eq-ok none e h = cc
ok_or-eq-ok (some a) e h = cc
