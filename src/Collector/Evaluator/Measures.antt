-- ===== src/Collector/Evaluator/Measures.antt =====
-- What internal/collector/evaluator.go measures on a window: whether and when the offset moved, the
-- rates, and the trend of the lag.
use lag_radar.Base.{
  ℕ, ◌-◌, ◌/◌, min, Bool, true, false, not, ◌&&◌, List, [], ◌∷◌, reverse, ltb, ◌==◌, if◌then◌else◌,
  length, take, drop, last,
}
use lag_radar.Base.Int.{ℤ, pos}
use lag_radar.Base.Word.{add_i64, sub_i64, eqb_ℤ}
use lag_radar.Base.Clock.{Duration, sub_time}
use lag_radar.Base.Float.{Float64, zero_float, seconds}
use lag_radar.Collector.Types.{
  LagTrend, increasing, decreasing, stable, trend_unknown, OffsetRecord, Config,
}

-- The keys of `uniqueOffsets`, as a set without repetition.
unfoldable pub contains : ℤ → List ℤ → Bool
contains o [] = false
contains o (p ∷ ps) = if eqb_ℤ o p then true else contains o ps

unfoldable pub unique_offsets : List ℤ → List OffsetRecord → List ℤ
unfolding contains
unique_offsets seen [] = seen
unique_offsets seen (r ∷ rs) =
    unique_offsets (if contains r.offset seen then seen else r.offset ∷ seen) rs

-- The records that `isConsumerActive` looks at.
abbrev pub recent : List OffsetRecord → List OffsetRecord
recent records = drop (length records - min 5 (length records)) records

unfoldable pub is_consumer_active : List OffsetRecord → Bool
unfolding unique_offsets
is_consumer_active records =
    if ltb (length records) 2 then false else ltb 1 (length (unique_offsets [] (recent records)))

-- The loop from `len - 2` down to 0, over the records before `newer` from new to old: `newer` is
-- `records[i+1]` where the list begins with `records[i]`.
unfoldable pub scan_back : OffsetRecord → OffsetRecord → List OffsetRecord → Duration
scan_back latest newer [] = sub_time latest.check_timestamp newer.check_timestamp
scan_back latest newer (r ∷ older) =
    if not (eqb_ℤ r.offset latest.offset)
    then sub_time latest.check_timestamp newer.check_timestamp
    else scan_back latest r older

scan_from : List OffsetRecord → Duration
unfolding scan_back
scan_from [] = pos 0
scan_from (latest ∷ older) = scan_back latest latest older

unfoldable pub time_since_last_offset_change : List OffsetRecord → Duration
unfolding scan_from
time_since_last_offset_change records =
    if ltb (length records) 2 then pos 0 else scan_from (reverse records)

sum_lag : ℤ → List OffsetRecord → ℤ
sum_lag sum [] = sum
sum_lag sum (r ∷ rs) = sum_lag (add_i64 sum r.lag) rs

-- The length of the first and of the last part that `calculateLagTrend` compares.
abbrev pub third_of : List OffsetRecord → ℕ
third_of records = if length records / 3 == 0 then 1 else length records / 3

module _ {F : Type 0} ⦃f : Float64 F⦄ where
  open f use {of_int, div, sub, abs, lt, eq}

  unfoldable pub calculate_consumption_rate : List OffsetRecord → F
  calculate_consumption_rate [] = zero_float
  calculate_consumption_rate (first ∷ rest) =
      let latest = last first rest in
      let time_diff : F = seconds (sub_time latest.check_timestamp first.check_timestamp) in
      if ltb (length (first ∷ rest)) 2
      then zero_float
      else if eqb_ℤ first.offset latest.offset
      then zero_float
      else if eq time_diff zero_float
      then zero_float
      else div (of_int (sub_i64 latest.offset first.offset)) time_diff

  unfoldable pub calculate_lag_change_rate : List OffsetRecord → F
  calculate_lag_change_rate [] = zero_float
  calculate_lag_change_rate (first ∷ rest) =
      let latest = last first rest in
      let lag_diff : F = of_int (sub_i64 latest.lag first.lag) in
      let time_diff : F = seconds (sub_time latest.check_timestamp first.check_timestamp) in
      if ltb (length (first ∷ rest)) 2
      then zero_float
      else if eq time_diff zero_float
      then zero_float
      else div lag_diff time_diff

  unfoldable pub average_lag : List OffsetRecord → F
  unfolding sum_lag
  average_lag records =
      if length records == 0
      then zero_float
      else div (of_int (sum_lag (pos 0) records)) (of_int (pos (length records)))

  unfoldable pub calculate_lag_trend : Config F → List OffsetRecord → LagTrend
  calculate_lag_trend config records =
      let third = third_of records in
      let first_avg : F = average_lag (take third records) in
      let last_avg : F = average_lag (drop (length records - third) records) in
      let change : F = div (sub last_avg first_avg) first_avg in
      if ltb (length records) 3
      then trend_unknown
      else if eq first_avg zero_float && eq last_avg zero_float
      then stable
      else if lt zero_float first_avg
      then (if lt (abs change) config.lag_trend_threshold
          then stable
          else if lt zero_float change
          then increasing
          else decreasing)
      else if lt zero_float last_avg
      then increasing
      else stable
