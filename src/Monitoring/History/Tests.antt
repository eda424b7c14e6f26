-- ===== src/Monitoring/History/Tests.antt =====
-- Two targets with a common time, one of them hidden, and the theorems about their chart.
use cdn_platform.Prelude.{
  ℕ, ◌≡◌, refl, false, [], ◌∷◌, Option, none, some, Text, codes, includes, if◌then◌else◌, decimal,
  map,
}
use cdn_platform.Types.Monitoring.{MonitoringHistorySeries, MonitoringHistoryPoint}
use cdn_platform.Monitoring.History.{
  HistoryChartPoint, build_chart_data, visible_chart_series, data_key_of, history_totals,
  set_visible, format_bucket,
}
use cdn_platform.Monitoring.History.Rows.{cell}
use cdn_platform.Monitoring.History.Chart.{last_at, cell-visible}
use cdn_platform.Monitoring.History.Order.{IsAscending, build_chart_data-IsAscending}

abbrev at : Text → Option ℕ → MonitoringHistoryPoint ℕ
at time latency = record {
  time = time;
  attempts = 3;
  successful_attempts = 2;
  success_rate = 1;
  average_latency_ms = latency;
  failed_rounds = 0;
}

abbrev one : MonitoringHistorySeries ℕ
one = record {
  target_id = codes "a";
  name = [];
  address = [];
  points = at (codes "9") (some 12) ∷ at (codes "5") none ∷ [];
}

abbrev two : MonitoringHistorySeries ℕ
two = record {
  target_id = codes "b";
  name = [];
  address = [];
  points = at (codes "5") (some 30) ∷ at [] (some 1) ∷ [];
}

-- The time is the first code unit.
abbrev parse_date : Text → Option ℕ
parse_date [] = none
parse_date (c ∷ s) = some c

chart :
    map
      (λ (row : HistoryChartPoint ℕ). row.timestamp)
      (build_chart_data parse_date (visible_chart_series [] (one ∷ two ∷ [])))
    ≡ 53 ∷ 57 ∷ []
unfolding build_chart_data visible_chart_series decimal
chart = refl

totals :
    (history_totals (one ∷ two ∷ []) ≡ (12, 8))
    × (set_visible (codes "a") false [] ≡ codes "a" ∷ [])
    × (format_bucket 300 ≡ some (codes "5 分钟"))
unfolding history_totals set_visible format_bucket
totals = (refl, refl, refl)

cell-visible_example :
    cell
      (build_chart_data parse_date (visible_chart_series (codes "a" ∷ []) (one ∷ two ∷ [])))
      53
      (data_key_of 1)
    ≡ (if includes (codes "a" ∷ []) (codes "b") then none else last_at parse_date 53 two.points)
cell-visible_example = cell-visible parse_date (codes "a" ∷ []) (one ∷ two ∷ []) 1 two 53 refl

build_chart_data-IsAscending_example :
    IsAscending (build_chart_data parse_date (visible_chart_series [] (one ∷ two ∷ [])))
build_chart_data-IsAscending_example =
    build_chart_data-IsAscending parse_date (visible_chart_series [] (one ∷ two ∷ []))
