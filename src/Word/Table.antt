-- ===== src/Word/Table.antt =====
-- Checking a small range value by value.
use rm_uniswap.Prelude.{ℕ, zero, suc, ◌<◌, ◌≡◌, Bool, true, ◌&&◌, arith}

unfoldable pub holds_below : (ℕ → Bool) → ℕ → Bool
holds_below test zero = true
holds_below test (suc bound) = holds_below test bound && test bound

-- What holds below a bound holds at each number there.
pub holds_below_at :
    (test : ℕ → Bool) (bound k : ℕ) → k < bound → holds_below test bound ≡ true → test k ≡ true
unfolding holds_below
holds_below_at test zero k lt every = absurd (omega arith)
holds_below_at test (suc bound) k lt every = ground (arith, holds_below_at test bound k)
