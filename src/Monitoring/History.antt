-- ===== src/Monitoring/History.antt =====
-- The history of a node's probes (frontend/src/features/monitoring/monitoring-node-history-page.tsx).
pub mod Rows
pub mod Chart
pub mod Order
mod Tests
use cdn_platform.Prelude.{
  ℕ, suc, ◌+◌, ◌/◌, ◌%◌, Bool, true, false, not, List, [], ◌∷◌, ◌++◌, filter, Option, none, some,
  Text, codes, decimal, ◌===◌, ◌==◌, leb, includes, if◌then◌else◌,
}
use cdn_platform.Prelude.Sorting.{Comparison, difference, sort}
use cdn_platform.Types.Monitoring.{
  MonitoringHistory, MonitoringHistorySeries, MonitoringHistoryPoint,
}

-- The colours of the lines are used in turn.
abbrev pub chart_colors : ℕ
chart_colors = 5

-- A check box of the legend: the hidden targets, without repetition.
unfoldable pub set_visible : Text → Bool → List Text → List Text
unfolding includes ◌===◌
set_visible target_id checked hidden =
    if checked
    then filter (λ id. not (id === target_id)) hidden
    else if includes hidden target_id
    then hidden
    else hidden ++ target_id ∷ []

pub record ChartSeries (Num : Type 0) : Type 0 where
  pub series : MonitoringHistorySeries Num
  pub data_key : Text
  pub color : ℕ

-- A row of the chart: `values` are the fields that the data keys name, in the order they were set.
pub record HistoryChartPoint (Num : Type 0) : Type 0 where
  pub timestamp : ℕ
  pub iso_time : Text
  pub values : List (Text × Option Num)

-- `target_${index}`
abbrev pub data_key_of : ℕ → Text
data_key_of index = codes "target_" ++ decimal index

module _ {Num : Type 0} where
  -- The series from an index on, with their keys and colours.
  unfoldable pub chart_series_from : ℕ → List (MonitoringHistorySeries Num) → List (ChartSeries Num)
  chart_series_from index [] = []
  chart_series_from index (s ∷ ss) =
      record { series = s; data_key = data_key_of index; color = index % chart_colors }
      ∷ chart_series_from (suc index) ss

  abbrev pub series_of : Option (MonitoringHistory Num) → List (MonitoringHistorySeries Num)
  series_of none = []
  series_of (some history) = history.series

  unfoldable pub visible_chart_series :
      List Text → List (MonitoringHistorySeries Num) → List (ChartSeries Num)
  unfolding chart_series_from includes
  visible_chart_series hidden series =
      filter (λ item. not (includes hidden item.series.target_id)) (chart_series_from 0 series)

  -- `row[key] = value`
  unfoldable pub set_value : Text → Option Num → List (Text × Option Num) → List (Text × Option Num)
  unfolding ◌===◌
  set_value key value [] = (key, value) ∷ []
  set_value key value ((k, v) ∷ values) =
      let rest = set_value key value values in
      if k === key then (k, value) ∷ values else (k, v) ∷ rest

  -- The row of a time, new at the end where there is none, with a value set.
  unfoldable pub set_row :
      ℕ → Text → Text → Option Num → List (HistoryChartPoint Num) → List (HistoryChartPoint Num)
  unfolding set_value
  set_row time iso key value [] =
      record { timestamp = time; iso_time = iso; values = (key, value) ∷ [] } ∷ []
  set_row time iso key value (row ∷ rows) =
      let rest = set_row time iso key value rows in
      if row.timestamp == time
      then record row { values = set_value key value row.values } ∷ rows
      else row ∷ rest

  abbrev pub by_time : Comparison (HistoryChartPoint Num)
  by_time left right = difference left.timestamp right.timestamp

  -- `parse_date` gives the milliseconds of a date, and `none` where they are not finite.
  module _ (parse_date : Text → Option ℕ) where
    unfoldable pub add_at :
        Option ℕ
        → Text
        → Text
        → Option Num
        → List (HistoryChartPoint Num)
        → List (HistoryChartPoint Num)
    unfolding set_row
    add_at none iso key value rows = rows
    add_at (some time) iso key value rows = set_row time iso key value rows

    unfoldable pub add_points :
        Text
        → List (MonitoringHistoryPoint Num)
        → List (HistoryChartPoint Num)
        → List (HistoryChartPoint Num)
    unfolding add_at
    add_points key [] rows = rows
    add_points key (point ∷ points) rows =
        add_points key points
          (add_at (parse_date point.time) point.time key point.average_latency_ms rows)

    unfoldable pub add_series :
        List (ChartSeries Num) → List (HistoryChartPoint Num) → List (HistoryChartPoint Num)
    unfolding add_points
    add_series [] rows = rows
    add_series (item ∷ items) rows =
        add_series items (add_points item.data_key item.series.points rows)

    unfoldable pub build_chart_data : List (ChartSeries Num) → List (HistoryChartPoint Num)
    unfolding add_series sort
    build_chart_data series = sort by_time (add_series series [])

  -- `historyTotals`: the attempts and the successful ones.
  unfoldable pub point_totals : List (MonitoringHistoryPoint Num) → ℕ × ℕ → ℕ × ℕ
  point_totals [] totals = totals
  point_totals (point ∷ points) (attempts, successes) =
      point_totals points (attempts + point.attempts, successes + point.successful_attempts)

  unfoldable pub series_totals : List (MonitoringHistorySeries Num) → ℕ × ℕ → ℕ × ℕ
  unfolding point_totals
  series_totals [] totals = totals
  series_totals (target ∷ series) totals = series_totals series (point_totals target.points totals)

  unfoldable pub history_totals : List (MonitoringHistorySeries Num) → ℕ × ℕ
  unfolding series_totals
  history_totals series = series_totals series (0, 0)

-- `formatBucket` of seconds that are whole minutes or hours where they are as long; a number with a
-- fraction is not printed.
unfoldable pub format_bucket : ℕ → Option Text
unfolding decimal
format_bucket seconds =
    if leb 3600 seconds
    then if seconds % 3600 == 0 then some (decimal (seconds / 3600) ++ codes " 小时") else none
    else if leb 60 seconds
    then if seconds % 60 == 0 then some (decimal (seconds / 60) ++ codes " 分钟") else none
    else some (decimal seconds ++ codes " 秒")
