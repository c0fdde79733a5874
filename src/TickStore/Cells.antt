-- ===== src/TickStore/Cells.antt =====
-- A tick store to run examples on: a function from keys to ticks, scanned for the next key. It shows that
-- the promises of `StoreLaws` can be kept.
use rm_uniswap.Prelude.{
  ℕ, zero, suc, ◌+◌, ◌-◌, ◌^◌, ◌≤◌, ◌<◌, ◌≡◌, inl, inr, refl, sym, ap, ◌∙◌, arith, Option, none,
  some, if◌then◌else◌, ◌==◌, Option-cases, lt_or_ge,
}
use rm_uniswap.Error.{ok}
use rm_uniswap.TickInfo.{TickInfo}
use rm_uniswap.TickStore.{TickStore}
use rm_uniswap.TickStore.Laws.{StoreLaws, with_inner}

pub record Cells : Type 0 where
  pub spacing : ℕ
  pub capacity : ℕ
  pub cell : ℕ → Option TickInfo

abbrev pub write : Cells → ℕ → Option TickInfo → Cells
write t k o = record t { cell = λ j. if j == k then o else t.cell j }

pub scan_up : ℕ → ℕ → (ℕ → Option TickInfo) → Option (ℕ × TickInfo)
scan_up zero k cell = none
scan_up (suc n) k cell = elim (cell k) [
  | some info ↦ some (k, info)
  | none ↦ scan_up n (suc k) cell
]

pub scan_down : ℕ → (ℕ → Option TickInfo) → Option (ℕ × TickInfo)
scan_down zero cell = none
scan_down (suc k) cell = elim (cell k) [ some info ↦ some (k, info) | none ↦ scan_down k cell ]

abbrev pub cells : TickStore
cells = record {
  Ticks = Cells;
  tick_spacing = λ t. t.spacing;
  max_liquidity_per_tick = λ t. t.capacity;
  get = λ t k. t.cell k;
  next = λ t k. scan_up (2 ^ 21 - suc k) (suc k) t.cell;
  prev = λ t k. scan_down k t.cell;
  insert = λ t k info. ok (write t k (some info));
  set_inner = λ t k inner. record t {
    cell = λ j. if j == k then with_inner inner (t.cell j) else t.cell j;
  };
  remove = λ t k. write t k none;
}

scan_up-some :
    (n k : ℕ) (cell : ℕ → Option TickInfo) (j : ℕ) (info : TickInfo)
    → scan_up n k cell ≡ some (j, info)
    → (k ≤ j) × (j < k + n) × (cell j ≡ some info) × ((m : ℕ) → k ≤ m → m < j → cell m ≡ none)
unfolding scan_up
scan_up-some zero k cell j info e = cc
scan_up-some (suc n) k cell j info e = elim (Option-cases (cell k)) [
  | inr (found, got) ↦
      let e' = rw (got, scan_up) at e in
      let keys : k ≡ j = cc e' in
      let infos : found ≡ info = cc e' in
      (omega arith, omega arith, rw (sym keys, sym infos) got, λ m h l. absurd (omega arith))
  | inl missing ↦
      let (lo, hi, got, gap) = scan_up-some n (suc k) cell j info (rw (missing, scan_up) at e) in
      (
        omega arith,
        omega arith,
        got,
        λ m h l. elim (lt_or_ge k m) [
          | inl above ↦ gap m (omega arith) l
          | inr same ↦ let at : m ≡ k = omega arith in ap cell at ∙ missing
        ],
      )
]

scan_up-none :
    (n k : ℕ) (cell : ℕ → Option TickInfo) (m : ℕ)
    → scan_up n k cell ≡ none
    → k ≤ m
    → m < k + n
    → cell m ≡ none
unfolding scan_up
scan_up-none zero k cell m e h l = absurd (omega arith)
scan_up-none (suc n) k cell m e h l = elim (Option-cases (cell k)) [
  | inr (found, got) ↦ cc (rw (got, scan_up) at e)
  | inl missing ↦ elim (lt_or_ge k m) [
    | inl above ↦
        scan_up-none n (suc k) cell m (rw (missing, scan_up) at e) (omega arith) (omega arith)
    | inr same ↦ let at : m ≡ k = omega arith in ap cell at ∙ missing
  ]
]

scan_down-some :
    (k : ℕ) (cell : ℕ → Option TickInfo) (j : ℕ) (info : TickInfo)
    → scan_down k cell ≡ some (j, info)
    → (j < k) × (cell j ≡ some info) × ((m : ℕ) → j < m → m < k → cell m ≡ none)
unfolding scan_down
scan_down-some zero cell j info e = cc
scan_down-some (suc k) cell j info e = elim (Option-cases (cell k)) [
  | inr (found, got) ↦
      let e' = rw (got, scan_down) at e in
      let keys : k ≡ j = cc e' in
      let infos : found ≡ info = cc e' in
      (omega arith, rw (sym keys, sym infos) got, λ m h l. absurd (omega arith))
  | inl missing ↦
      let (lo, got, gap) = scan_down-some k cell j info (rw (missing, scan_down) at e) in
      (
        omega arith,
        got,
        λ m h l. elim (lt_or_ge m k) [
          | inl below ↦ gap m h below
          | inr same ↦ let at : m ≡ k = omega arith in ap cell at ∙ missing
        ],
      )
]

scan_down-none :
    (k : ℕ) (cell : ℕ → Option TickInfo) (m : ℕ) → scan_down k cell ≡ none → m < k → cell m ≡ none
unfolding scan_down
scan_down-none zero cell m e l = absurd (omega arith)
scan_down-none (suc k) cell m e l = elim (Option-cases (cell k)) [
  | inr (found, got) ↦ cc (rw (got, scan_down) at e)
  | inl missing ↦ elim (lt_or_ge m k) [
    | inl below ↦ scan_down-none k cell m (rw (missing, scan_down) at e) below
    | inr same ↦ let at : m ≡ k = omega arith in ap cell at ∙ missing
  ]
]

-- The scanning store keeps every promise.
pub cells-Laws : StoreLaws cells
unfolding scan_down
cells-Laws = record {
  get_set_inner = λ ticks k j inner h l. refl;
  get_insert = λ ticks ticks' k j info h l e.
      let same : write ticks k (some info) ≡ ticks' = cc e in ap (λ t. t.cell j) (sym same);
  get_remove = λ ticks k j h l. refl;
  next_some = λ ticks k j info h e.
      let (lo, hi, got, gap) = scan_up-some (2 ^ 21 - suc k) (suc k) ticks.cell j info e in
      (omega arith, omega arith, got, λ m h l. gap m (omega arith) l);
  next_none = λ ticks k m hk e h l.
      scan_up-none (2 ^ 21 - suc k) (suc k) ticks.cell m e (omega arith) (omega arith);
  prev_some = λ ticks k j info h e. scan_down-some k ticks.cell j info e;
  prev_none = λ ticks k m h e l. scan_down-none k ticks.cell m e l;
  spacing_set_inner = λ ticks k inner. refl;
  spacing_insert = λ ticks ticks' k info e.
      let same : write ticks k (some info) ≡ ticks' = cc e in ap (λ t. t.spacing) (sym same);
  spacing_remove = λ ticks k. refl;
}
