-- ===== src/TickStore/Laws.antt =====
-- What a tick store promises: `get` after each write, and that `next` and `prev` find the nearest key.
use rm_uniswap.Prelude.{ℕ, ◌^◌, ◌<◌, ◌≡◌, Option, none, some, if◌then◌else◌, ◌==◌}
use rm_uniswap.Error.{ok}
use rm_uniswap.TickInfo.{TickInfo, TickInfoInner}
use rm_uniswap.TickStore.{TickStore}

-- A key has 21 bits.
abbrev pub key_bound : ℕ
key_bound = 2 ^ 21

abbrev pub with_inner : TickInfoInner → Option TickInfo → Option TickInfo
with_inner inner none = none
with_inner inner (some info) = some (record info { inner = inner })

pub record StoreLaws (store : TickStore) : Type 0 where
  pub get_set_inner :
      (ticks : store.Ticks) (k j : ℕ) (inner : TickInfoInner)
      → k < key_bound
      → j < key_bound
      → store.get (store.set_inner ticks k inner) j
        ≡ (if j == k then with_inner inner (store.get ticks j) else store.get ticks j)
  pub get_insert :
      (ticks ticks' : store.Ticks) (k j : ℕ) (info : TickInfo)
      → k < key_bound
      → j < key_bound
      → store.insert ticks k info ≡ ok ticks'
      → store.get ticks' j ≡ (if j == k then some info else store.get ticks j)
  pub get_remove :
      (ticks : store.Ticks) (k j : ℕ)
      → k < key_bound
      → j < key_bound
      → store.get (store.remove ticks k) j ≡ (if j == k then none else store.get ticks j)
  pub next_some :
      (ticks : store.Ticks) (k j : ℕ) (info : TickInfo)
      → k < key_bound
      → store.next ticks k ≡ some (j, info)
      → (k < j)
        × (j < key_bound)
        × (store.get ticks j ≡ some info)
        × ((m : ℕ) → k < m → m < j → store.get ticks m ≡ none)
  pub next_none :
      (ticks : store.Ticks) (k m : ℕ)
      → k < key_bound
      → store.next ticks k ≡ none
      → k < m
      → m < key_bound
      → store.get ticks m ≡ none
  pub prev_some :
      (ticks : store.Ticks) (k j : ℕ) (info : TickInfo)
      → k < key_bound
      → store.prev ticks k ≡ some (j, info)
      → (j < k)
        × (store.get ticks j ≡ some info)
        × ((m : ℕ) → j < m → m < k → store.get ticks m ≡ none)
  pub prev_none :
      (ticks : store.Ticks) (k m : ℕ)
      → k < key_bound
      → store.prev ticks k ≡ none
      → m < k
      → store.get ticks m ≡ none
  pub spacing_set_inner :
      (ticks : store.Ticks) (k : ℕ) (inner : TickInfoInner)
      → store.tick_spacing (store.set_inner ticks k inner) ≡ store.tick_spacing ticks
  pub spacing_insert :
      (ticks ticks' : store.Ticks) (k : ℕ) (info : TickInfo)
      → store.insert ticks k info ≡ ok ticks'
      → store.tick_spacing ticks' ≡ store.tick_spacing ticks
  pub spacing_remove :
      (ticks : store.Ticks) (k : ℕ)
      → store.tick_spacing (store.remove ticks k) ≡ store.tick_spacing ticks
