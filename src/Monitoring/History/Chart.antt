-- ===== src/Monitoring/History/Chart.antt =====
-- What the chart shows (frontend/src/features/monitoring/monitoring-node-history-page.tsx).
use cdn_platform.Prelude.{
  ℕ, zero, suc, ◌+◌, ◌≡◌, ◌≢◌, ◌<◌, refl, ap, sym, ◌∙◌, Bool, true, false, not, ◌&&◌, List, [], ◌∷◌,
  filter, get_elem?, Option, none, some, Text, value_from, drop, ◌===◌, eq_of_===, ===-self, ◌==◌,
  includes, Bool-cases, inl, inr, arith, if◌then◌else◌,
}
use cdn_platform.Prelude.Decimal.Laws.{value_from-decimal}
use cdn_platform.Types.Monitoring.{MonitoringHistoryPoint, MonitoringHistorySeries}
use cdn_platform.Monitoring.History.{
  HistoryChartPoint, ChartSeries, add_at, add_points, add_series, build_chart_data, data_key_of,
  chart_series_from, visible_chart_series,
}
use cdn_platform.Monitoring.History.Rows.{cell, cell-set_row, cell-sort}

infixr 30 ◌or_else◌
abbrev pub ◌or_else◌ {ℓ} : {A : Type ℓ} → Option A → Option A → Option A
none or_else b = b
some a or_else b = some a

or_else_assoc {ℓ} :
    {A : Type ℓ} (a b c : Option A) → ((a or_else b) or_else c) ≡ (a or_else (b or_else c))
or_else_assoc none b c = refl
or_else_assoc (some a) b c = refl

or_else_none {ℓ} : {A : Type ℓ} (a : Option A) → (a or_else none) ≡ a
or_else_none none = refl
or_else_none (some a) = refl

key_apart : (i j : ℕ) → i ≢ j → (data_key_of i === data_key_of j) ≡ false
key_apart i j h = elim (Bool-cases (data_key_of i === data_key_of j)) [
  | inl e ↦
      let number : Text → ℕ = λ key. value_from 0 (drop 7 key) in
      let same = ap number (eq_of_=== (data_key_of i) (data_key_of j) e) in
      absurd (h (sym (value_from-decimal i) ∙ same ∙ value_from-decimal j))
  | inr e ↦ e
]

module _ {Num : Type 0} (parse_date : Text → Option ℕ) where
  abbrev at_time : ℕ → Option ℕ → Option Num → Option (Option Num)
  at_time time none v = none
  at_time time (some t) v = if t == time then some v else none

  -- The value of the last point of a series at a time.
  unfoldable pub last_at : ℕ → List (MonitoringHistoryPoint Num) → Option (Option Num)
  last_at time [] = none
  last_at time (point ∷ points) =
      last_at time points or_else at_time time (parse_date point.time) point.average_latency_ms

  abbrev when_key : Bool → Option (Option Num) → Option (Option Num)
  when_key true v = v
  when_key false v = none

  -- The value of the last series with a key, at a time.
  unfoldable value_in : List (ChartSeries Num) → ℕ → Text → Option (Option Num)
  unfolding last_at
  value_in [] time key = none
  value_in (item ∷ items) time key =
      value_in items time key
      or_else when_key (item.data_key === key) (last_at time item.series.points)

  one_point :
      (date : Option ℕ) (iso key : Text) (v : Option Num) (rows : List (HistoryChartPoint Num))
      (time : ℕ) (other : Text)
      → cell (add_at parse_date date iso key v rows) time other
        ≡ (when_key (key === other) (at_time time date v) or_else cell rows time other)
  unfolding add_at
  one_point none iso key v rows time other = elim (Bool-cases (key === other)) [
    | inl e ↦ rw e refl
    | inr e ↦ rw e refl
  ]
  one_point (some t) iso key v rows time other =
      cell-set_row t iso key v rows time other ∙ tested (t == time) (key === other) _ _
    where
      tested :
          (a b : Bool) (x : Option Num) (y : Option (Option Num))
          → (if a && b then some x else y) ≡ (when_key b (if a then some x else none) or_else y)
      tested true true x y = refl
      tested true false x y = refl
      tested false true x y = refl
      tested false false x y = refl

  joined :
      (b : Bool) (later first rest : Option (Option Num))
      → (when_key b later or_else (when_key b first or_else rest))
        ≡ (when_key b (later or_else first) or_else rest)
  joined true later first rest = sym (or_else_assoc later first rest)
  joined false later first rest = refl

  cell-add_points :
      (key : Text) (points : List (MonitoringHistoryPoint Num))
      (rows : List (HistoryChartPoint Num)) (time : ℕ) (other : Text)
      → cell (add_points parse_date key points rows) time other
        ≡ (when_key (key === other) (last_at time points) or_else cell rows time other)
  unfolding add_points last_at
  cell-add_points key [] rows time other = elim (Bool-cases (key === other)) [
    | inl e ↦ rw e refl
    | inr e ↦ rw e refl
  ]
  cell-add_points key (p ∷ points) rows time other =
      cell-add_points key points _ time other
      ∙ ap (when_key (key === other) (last_at time points) or_else◌)
          (one_point (parse_date p.time) p.time key p.average_latency_ms rows time other)
      ∙ joined (key === other) _ _ _

  cell-add_series :
      (items : List (ChartSeries Num)) (rows : List (HistoryChartPoint Num)) (time : ℕ) (key : Text)
      → cell (add_series parse_date items rows) time key
        ≡ (value_in items time key or_else cell rows time key)
  unfolding add_series value_in
  cell-add_series [] rows time key = refl
  cell-add_series (item ∷ items) rows time key =
      cell-add_series items _ time key
      ∙ ap (value_in items time key or_else◌)
          (cell-add_points item.data_key item.series.points rows time key)
      ∙ sym (or_else_assoc (value_in items time key) _ _)

  cell-build_chart_data :
      (items : List (ChartSeries Num)) (time : ℕ) (key : Text)
      → cell (build_chart_data parse_date items) time key ≡ value_in items time key
  unfolding build_chart_data cell
  cell-build_chart_data items time key =
      cell-sort (add_series parse_date items []) time key
      ∙ cell-add_series items [] time key
      ∙ or_else_none _

  shown : List Text → List (ChartSeries Num) → List (ChartSeries Num)
  shown hidden items = filter (λ item. not (includes hidden item.series.target_id)) items

  -- No series from an index on has the key of an earlier one.
  earlier_key :
      (hidden : List Text) (i m : ℕ) (series : List (MonitoringHistorySeries Num)) (time : ℕ)
      → m < i
      → value_in (shown hidden (chart_series_from i series)) time (data_key_of m) ≡ none
  unfolding shown chart_series_from value_in
  earlier_key hidden i m [] time h = refl
  earlier_key hidden i m (s ∷ series) time h =
      let rest = earlier_key hidden (suc i) m series time (omega arith) in
      let apart = key_apart i m (λ e. omega arith) in
      elim (Bool-cases (includes hidden s.target_id)) [
        | inl e ↦ rw e rest
        | inr e ↦ rw (e, value_in, rest, apart) refl
      ]

  own_key :
      (hidden : List Text) (i j : ℕ) (series : List (MonitoringHistorySeries Num))
      (s : MonitoringHistorySeries Num) (time : ℕ)
      → get_elem? series j ≡ some s
      → value_in (shown hidden (chart_series_from i series)) time (data_key_of (i + j))
        ≡ (if includes hidden s.target_id then none else last_at time s.points)
  unfolding shown chart_series_from value_in
  own_key hidden i j [] s time h = cc
  own_key hidden i zero (x ∷ series) s time h =
      let here : x ≡ s = cc in
      let index : i + 0 ≡ i = omega arith in
      let rest = earlier_key hidden (suc i) i series time (omega arith) in
      elim (Bool-cases (includes hidden x.target_id)) [
        | inl e ↦ rw⁻¹ here (rw (index, e) rest)
        | inr e ↦ rw⁻¹ here (rw (index, e, value_in, rest, ===-self (data_key_of i)) refl)
      ]
  own_key hidden i (suc j) (x ∷ series) s time h =
      let index : suc i + j ≡ i + suc j = omega arith in
      let rest = own_key hidden (suc i) j series s time h in
      let apart = key_apart i (i + suc j) (λ e. omega arith) in
      elim (Bool-cases (includes hidden x.target_id)) [
        | inl e ↦ rw e (rw index at rest)
        | inr e ↦ rw (e, value_in, apart, or_else_none) (rw index at rest)
      ]

  -- In the chart of the visible series, the field of a target in the row of a time is the value of the
  -- target's last point at that time, missing where it has none, and missing for a hidden target.
  pub cell-visible :
      (hidden : List Text) (series : List (MonitoringHistorySeries Num)) (j : ℕ)
      (s : MonitoringHistorySeries Num) (time : ℕ)
      → get_elem? series j ≡ some s
      → cell (build_chart_data parse_date (visible_chart_series hidden series)) time (data_key_of j)
        ≡ (if includes hidden s.target_id then none else last_at time s.points)
  unfolding visible_chart_series shown
  cell-visible hidden series j s time h =
      cell-build_chart_data (visible_chart_series hidden series) time (data_key_of j)
      ∙ (let zero_based : 0 + j ≡ j = omega arith in
          let found = own_key hidden 0 j series s time h in rw zero_based at found)
