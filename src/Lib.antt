-- ===== src/Lib.antt =====
-- rm-uniswap is an in-memory simulator of concentrated-liquidity pools in Rust. This library models
-- its pools and their arithmetic and states what makes it correct.
--
-- The parts, from the bottom up, and the file that models each:
-- - src/core/error.rs: `Error`, with `Result` and the `?` operator (`>>=`).
-- - ruint words (used everywhere): `Word`. A word is a number below 2^w; the wrap-around is written
--   out as `% 2 ^ w`, a shift as a multiplication or a division by a power of two.
-- - src/core/math/full.rs (`mul_div`, `mul_q96_div`, and rounding up): `FullMath`. `Ratio` holds the
--   specification, an exact quotient as a `Result`.
-- - src/core/math/small_ratio.rs (`mul_div_u32_floor`, `mul_div_u32_ceil`): `SmallRatio`, limb by limb.
-- - src/core/types/fee (`Fee`, `ProtocolFee`, `SwapFee`): `Fee`. The setters return the new value.
-- - src/core/types/sqrt_price.rs, nonzero.rs: `SqrtPrice`. A price is a number, and `IsPrice` says
--   that it is in the protocol's range.
-- - src/core/math/sqrt_price.rs (next price, amount deltas): `SqrtPriceMath`.
-- - src/core/math/swap.rs (`compute_swap_step`): `SwapMath`, which calls the fees, the small ratios and
--   the price math; `SwapMath.Spec` is what a step owes to both sides.
-- - src/core/math/tick.rs (`get_sqrt_price_at_tick`, `get_tick_at_sqrt_price`): `TickMath`. A tick is
--   an integer; `TickMath.Ladder` is the reference product over the bits of a tick.
-- - src/core/types/tick.rs, tick_spacing.rs, tick_slab_indexer.rs: `TickKey`. `encode` and `decode` are
--   the part of `from_tick` and `to_tick` on the compressed tick.
-- - src/core/types/delta.rs, with the signed amount deltas of src/core/math/sqrt_price.rs:
--   `BalanceDelta`. An `i128` is an integer; a negative amount is what the caller pays.
-- - src/core/types/ticks.rs: `TickInfo`. src/core/types/params.rs: `Params`. src/core/types/pool_state.rs:
--   `PoolState`, with the trait `StateAccess`.
-- - src/core/concentrated/ticks: `TickStore`, the trait `TickAccess` and the operations that the pool
--   composes, over the operations of the store as an interface; `TickStore.Laws` says what the store
--   promises.
-- - src/core/concentrated/ticks/slab.rs: `TickSlab`, the pages, their links, the bitmap and the table of
--   keys, with the invariant in `TickSlab.Well`. The crate `slab` is a parameter, with what it documents
--   in `TickSlab.Crate`. `TickSlab.Store` is the slab as the tick store of the pool. `get_tick` is `get`,
--   `set_inner` the write through `get_mut`. An `expect` whose page is missing does nothing in the model;
--   the invariant excludes it. `TickStore.Cells` is a smaller store, for the examples of the pool.
-- - src/core/concentrated/ticks/bitmap.rs: `Bitmap`, with its invariant in `Bitmap.Well`. A layer is a
--   list of words.
-- - src/core/concentrated/ticks/slab_value.rs: `TickPage`. The array of slots is a function of the index.
-- - src/core/concentrated/position.rs: `Position`.
-- - src/core/concentrated/pool.rs: `SwapLoop` for `swap_inner`, and `Pool` for the rest. `SwapLoop.turn` is
--   one turn of the loop, `SwapLoop.charge` its step, fees and amounts; `Pool` calls `SwapLoop`, `Position`
--   and the store, and hands a quote the read-only traits and a swap the mutable ones.
--
-- The 512-, 384-, 352- and 288-bit intermediate words are written out where the code shifts in
-- them. The loop over the set bits of a tick runs on fuel 20: a valid tick is below 2^20 and every
-- turn clears a bit. The swap loop runs on fuel 1,774,546, one more than the ticks of the protocol's
-- range: a turn that does not end the loop moves the tick on in the direction of the swap.
--
-- Not modelled: serialization, formatting and macros, which move no value; the unchecked constructors,
-- which skip the tests that `new` makes. The negation of an `i128` wraps, as in a release build. An
-- error that leaves written ticks behind does so here too: an operation returns the pool on both paths.
-- Outside this library: the snapshots of a pool and of its ticks; the pool manager and the hooks, which
-- call the pool.
pub mod Bitmap
pub mod TickPage
pub mod TickSlab
pub mod Prelude
pub mod Error
pub mod Word
pub mod Ratio
pub mod SmallRatio
pub mod FullMath
pub mod Fee
pub mod SqrtPrice
pub mod SqrtPriceMath
pub mod Params
pub mod SwapLoop
pub mod SwapMath
pub mod TickMath
pub mod Pool
pub mod PoolState
pub mod Position
pub mod TickInfo
pub mod TickKey
pub mod TickStore
pub mod BalanceDelta
