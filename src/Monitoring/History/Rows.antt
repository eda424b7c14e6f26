-- ===== src/Monitoring/History/Rows.antt =====
-- The cells of the chart's rows (frontend/src/features/monitoring/monitoring-node-history-page.tsx).
use cdn_platform.Prelude.{
  ℕ, ◌≡◌, refl, sym, ◌∙◌, Bool, true, false, ◌&&◌, List, [], ◌∷◌, Option, none, some, Text, ◌===◌,
  eq_of_===, ◌==◌, Bool-cases, inl, inr, arith, if◌then◌else◌,
}
use cdn_platform.Prelude.Sorting.{insert, sort, in_order}
use cdn_platform.Monitoring.History.{HistoryChartPoint, set_value, set_row, by_time}

-- `row[key]`
unfoldable pub value_of {ℓ} : {V : Type ℓ} → Text → List (Text × V) → Option V
unfolding ◌===◌
value_of key [] = none
value_of key ((k, v) ∷ values) =
    let rest = value_of key values in if k === key then some v else rest

apart_turned : (s t : Text) → (t === s) ≡ false → (s === t) ≡ false
apart_turned s t h = elim (Bool-cases (s === t)) [
  | inl e ↦ let same : (t === s) ≡ (s === t) = rw (eq_of_=== s t e) refl in absurd (cc)
  | inr e ↦ e
]

both {ℓ} :
    {A : Type ℓ} (a b : Bool) (x y z : A)
    → (if a then (if b then x else y) else z) ≡ (if a && b then x else (if a then y else z))
both true b x y z = refl
both false b x y z = refl

first_found {ℓ} :
    {A : Type ℓ} (a b : Bool) (x y z : A)
    → (a && b) ≡ false
    → (if b then y else (if a then x else z)) ≡ (if a then x else (if b then y else z))
first_found true true x y z h = cc
first_found true false x y z h = refl
first_found false b x y z h = refl

module _ {Num : Type 0} where
  -- The field of a key in the row of a time, if both are there.
  unfoldable pub cell : List (HistoryChartPoint Num) → ℕ → Text → Option (Option Num)
  unfolding value_of
  cell [] time key = none
  cell (row ∷ rows) time key =
      let rest = cell rows time key in
      if row.timestamp == time then value_of key row.values else rest

  value_of-set_value :
      (key other : Text) (v : Option Num) (values : List (Text × Option Num))
      → value_of other (set_value key v values)
        ≡ (if key === other then some v else value_of other values)
  unfolding value_of set_value
  value_of-set_value key other v [] = refl
  value_of-set_value key other v ((k, w) ∷ values) = elim (Bool-cases (k === key)) [
    | inl e ↦
        let same : (k === other) ≡ (key === other) = rw (eq_of_=== k key e) refl in
        rw (set_value, e, value_of, same) (ground arith)
    | inr e ↦ elim (Bool-cases (k === other)) [
      | inl o ↦
          let same : (k === key) ≡ (other === key) = rw (eq_of_=== k other o) refl in
          let apart : (key === other) ≡ false = apart_turned key other (sym same ∙ e) in
          rw (set_value, e, value_of, o, apart) refl
      | inr o ↦ rw (set_value, e, value_of, o, value_of-set_value key other v values) refl
    ]
  ]

  -- Setting a value changes the cell of its time and key alone.
  pub cell-set_row :
      (t : ℕ) (iso key : Text) (v : Option Num) (rows : List (HistoryChartPoint Num)) (time : ℕ)
      (other : Text)
      → cell (set_row t iso key v rows) time other
        ≡ (if (t == time) && (key === other) then some v else cell rows time other)
  unfolding cell set_row value_of
  cell-set_row t iso key v [] time other = ground arith
  cell-set_row t iso key v (row ∷ rows) time other = elim (Bool-cases (row.timestamp == t)) [
    | inl e ↦
        let same : (row.timestamp == time) ≡ (t == time) = ground arith in
        rw (set_row, e, cell, same, value_of-set_value key other v row.values)
          (both (t == time) (key === other) _ _ _)
    | inr e ↦ elim (Bool-cases (row.timestamp == time)) [
      | inl here ↦
          let apart : (t == time) ≡ false = ground arith in rw (set_row, e, cell, here, apart) refl
      | inr there ↦ rw (set_row, e, cell, there, cell-set_row t iso key v rows time other) refl
    ]
  ]

  cell-insert :
      (x : HistoryChartPoint Num) (rows : List (HistoryChartPoint Num)) (time : ℕ) (key : Text)
      → cell (insert by_time x rows) time key ≡ cell (x ∷ rows) time key
  unfolding cell insert
  cell-insert x [] time key = refl
  cell-insert x (y ∷ rows) time key = elim (Bool-cases (in_order (by_time x y))) [
    | inl e ↦ rw (insert, e) refl
    | inr e ↦
        rw (insert, e, cell, cell-insert x rows time key)
          (first_found (x.timestamp == time) (y.timestamp == time) _ _ _ (ground arith))
  ]

  -- Sorting the rows by time keeps every cell.
  pub cell-sort :
      (rows : List (HistoryChartPoint Num)) (time : ℕ) (key : Text)
      → cell (sort by_time rows) time key ≡ cell rows time key
  unfolding sort cell
  cell-sort [] time key = refl
  cell-sort (x ∷ rows) time key =
      rw (cell-insert x (sort by_time rows) time key, cell-sort rows time key) refl
