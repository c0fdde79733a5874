-- ===== src/TickSlab/Tests.antt =====
-- Witnesses: an empty slab, and the tick store over the slab of the examples.
use rm_uniswap.Prelude.{ℕ, ◌≡◌, arith, none}
use rm_uniswap.TickSlab.{new_slab, get_tick}
use rm_uniswap.TickSlab.Fresh.{new_slab-IsSlab}
use rm_uniswap.TickSlab.Sample.{sample, sample-Laws}
use rm_uniswap.TickSlab.Store.{tick_slab, tick_slab-Laws}
use rm_uniswap.TickSlab.Well.{IsSlab}
use rm_uniswap.TickStore.Laws.{StoreLaws}

new_slab-IsSlab_example :
    IsSlab sample sample-Laws (new_slab sample 60)
    × ((key : ℕ) → get_tick sample (new_slab sample 60) key ≡ none)
new_slab-IsSlab_example =
    new_slab-IsSlab sample sample-Laws 60 (record { positive = omega arith; fits = omega arith })

tick_slab-Laws_example : StoreLaws (tick_slab sample sample-Laws)
tick_slab-Laws_example = tick_slab-Laws sample sample-Laws
