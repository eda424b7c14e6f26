-- ===== src/Monitoring/History/Order.antt =====
-- The order of the chart's rows (frontend/src/features/monitoring/monitoring-node-history-page.tsx).
use cdn_platform.Prelude.{
  ℕ, ◌≢◌, ◌<◌, List, [], ◌∷◌, Option, none, some, Text, ◌==◌, All, Bool-cases, inl, inr, arith,
}
use cdn_platform.Prelude.Sorting.{insert, sort, in_order}
use cdn_platform.Prelude.Sorting.Sorted.{insert-All}
use cdn_platform.Types.Monitoring.{MonitoringHistoryPoint}
use cdn_platform.Monitoring.History.{
  HistoryChartPoint, ChartSeries, set_row, add_at, add_points, add_series, by_time,
  build_chart_data,
}

module _ {Num : Type 0} where
  -- Each row has a time before those of all rows behind it.
  abbrev pub IsAscending : List (HistoryChartPoint Num) → Type 0
  IsAscending [] = Unit
  IsAscending (x ∷ rows) = All (λ y. x.timestamp < y.timestamp) rows × IsAscending rows

  abbrev IsApart : ℕ → HistoryChartPoint Num → Type 0
  IsApart t row = t ≢ row.timestamp

  abbrev HasDistinctTimes : List (HistoryChartPoint Num) → Type 0
  HasDistinctTimes [] = Unit
  HasDistinctTimes (x ∷ rows) = All (IsApart x.timestamp) rows × HasDistinctTimes rows

  set_row-IsApart :
      (u t : ℕ) (iso key : Text) (v : Option Num) (rows : List (HistoryChartPoint Num))
      → u ≢ t
      → All (IsApart u) rows
      → All (IsApart u) (set_row t iso key v rows)
  unfolding set_row
  set_row-IsApart u t iso key v [] h a = (h, tt)
  set_row-IsApart u t iso key v (row ∷ rows) h (first, rest) =
      elim (Bool-cases (row.timestamp == t)) [
        | inl e ↦ rw (set_row, e) (first, rest)
        | inr e ↦ rw (set_row, e) (first, set_row-IsApart u t iso key v rows h rest)
      ]

  set_row-HasDistinctTimes :
      (t : ℕ) (iso key : Text) (v : Option Num) (rows : List (HistoryChartPoint Num))
      → HasDistinctTimes rows
      → HasDistinctTimes (set_row t iso key v rows)
  unfolding set_row
  set_row-HasDistinctTimes t iso key v [] h = (tt, tt)
  set_row-HasDistinctTimes t iso key v (row ∷ rows) (first, rest) =
      elim (Bool-cases (row.timestamp == t)) [
        | inl e ↦ rw (set_row, e) (first, rest)
        | inr e ↦
            rw (set_row, e)
              (
                set_row-IsApart row.timestamp t iso key v rows (λ same. ground arith) first,
                set_row-HasDistinctTimes t iso key v rows rest,
              )
      ]

  insert-IsApart :
      (u : ℕ) (x : HistoryChartPoint Num) (rows : List (HistoryChartPoint Num))
      → u ≢ x.timestamp
      → All (IsApart u) rows
      → All (IsApart u) (insert by_time x rows)
  insert-IsApart u x rows = insert-All by_time (IsApart u) x rows

  All-after :
      (t : ℕ) (y : HistoryChartPoint Num) (rows : List (HistoryChartPoint Num))
      → t < y.timestamp
      → All (λ z. y.timestamp < z.timestamp) rows
      → All (λ z. t < z.timestamp) rows
  All-after t y [] h a = tt
  All-after t y (z ∷ rows) h (first, rest) = (omega arith, All-after t y rows h rest)

  insert-IsAscending :
      (x : HistoryChartPoint Num) (rows : List (HistoryChartPoint Num))
      → All (IsApart x.timestamp) rows
      → IsAscending rows
      → IsAscending (insert by_time x rows)
  unfolding insert
  insert-IsAscending x [] a h = (tt, tt)
  insert-IsAscending x (y ∷ rows) (apart, others) (first, rest) =
      elim (Bool-cases (in_order (by_time x y))) [
        | inl e ↦
            let before : x.timestamp < y.timestamp = ground arith in
            rw (insert, e) ((before, All-after x.timestamp y rows before first), (first, rest))
        | inr e ↦
            let behind : y.timestamp < x.timestamp = ground arith in
            rw (insert, e)
              (
                insert-All by_time (λ z. y.timestamp < z.timestamp) x rows behind first,
                insert-IsAscending x rows others rest,
              )
      ]

  sort-IsApart :
      (u : ℕ) (rows : List (HistoryChartPoint Num))
      → All (IsApart u) rows
      → All (IsApart u) (sort by_time rows)
  unfolding sort
  sort-IsApart u [] h = tt
  sort-IsApart u (x ∷ rows) (first, rest) =
      insert-IsApart u x (sort by_time rows) first (sort-IsApart u rows rest)

  sort-IsAscending :
      (rows : List (HistoryChartPoint Num))
      → HasDistinctTimes rows
      → IsAscending (sort by_time rows)
  unfolding sort
  sort-IsAscending [] h = tt
  sort-IsAscending (x ∷ rows) (first, rest) =
      insert-IsAscending x (sort by_time rows) (sort-IsApart x.timestamp rows first)
        (sort-IsAscending rows rest)

  module _ (parse_date : Text → Option ℕ) where
    add_at-HasDistinctTimes :
        (date : Option ℕ) (iso key : Text) (v : Option Num) (rows : List (HistoryChartPoint Num))
        → HasDistinctTimes rows
        → HasDistinctTimes (add_at parse_date date iso key v rows)
    unfolding add_at
    add_at-HasDistinctTimes none iso key v rows h = h
    add_at-HasDistinctTimes (some t) iso key v rows h = set_row-HasDistinctTimes t iso key v rows h

    add_points-HasDistinctTimes :
        (key : Text) (points : List (MonitoringHistoryPoint Num))
        (rows : List (HistoryChartPoint Num))
        → HasDistinctTimes rows
        → HasDistinctTimes (add_points parse_date key points rows)
    unfolding add_points
    add_points-HasDistinctTimes key [] rows h = h
    add_points-HasDistinctTimes key (p ∷ points) rows h =
        add_points-HasDistinctTimes key points _
          (add_at-HasDistinctTimes (parse_date p.time) p.time key p.average_latency_ms rows h)

    add_series-HasDistinctTimes :
        (items : List (ChartSeries Num)) (rows : List (HistoryChartPoint Num))
        → HasDistinctTimes rows
        → HasDistinctTimes (add_series parse_date items rows)
    unfolding add_series
    add_series-HasDistinctTimes [] rows h = h
    add_series-HasDistinctTimes (item ∷ items) rows h =
        add_series-HasDistinctTimes items _
          (add_points-HasDistinctTimes item.data_key item.series.points rows h)

    -- The rows of the chart stand in the order of their times, and no two have the same time.
    pub build_chart_data-IsAscending :
        (items : List (ChartSeries Num)) → IsAscending (build_chart_data parse_date items)
    unfolding build_chart_data
    build_chart_data-IsAscending items =
        sort-IsAscending _ (add_series-HasDistinctTimes items [] tt)
