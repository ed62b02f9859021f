-- ===== src/Collector/Evaluator.antt =====
-- internal/collector/evaluator.go: what `EvaluatePartitionConsumer` makes of the measures of a window. A
-- method of `LagEvaluator` is a function of its configuration, and one that sets fields of `result`
-- returns the new record.
pub mod Measures
pub mod Activity
pub mod Status
use lag_radar.Base.{
  ℕ, zero, suc, ◌+◌, ◌-◌, ◌/◌, ◌≤◌, ◌<◌, ◌≡◌, refl, min, Bool, true, false, not, ◌&&◌, List, [],
  ◌∷◌, reverse, ltb, leb, ◌==◌, if◌then◌else◌, length, take, drop, last,
}
use lag_radar.Base.Int.{ℤ, pos, ltb_ℤ}
use lag_radar.Base.Word.{add_i64, sub_i64, eqb_ℤ}
use lag_radar.Base.Text.{Str}
use lag_radar.Base.Clock.{Time, Duration, zero_time, sub_time}
use lag_radar.Base.Float.{Float64, zero_float, seconds}
use lag_radar.Collector.Types.{
  ConsumerStatus, active, lagging, stalled, stopped, empty, unknown, no_status, LagTrend,
  increasing, decreasing, stable, trend_unknown, no_trend, ConsumerHealth, good, warning, critical,
  no_health, OffsetRecord, PartitionConsumerStatus, Config, Message, no_message, no_data_available,
  insufficient_data, idle_caught_up, stopped_for, stalled_for, slow_consumption, active_caught_up,
  lag_rising, processing,
}
use lag_radar.Collector.Evaluator.Measures.{
  contains, unique_offsets, recent, is_consumer_active, scan_back, time_since_last_offset_change,
  third_of, calculate_consumption_rate, calculate_lag_change_rate, average_lag, calculate_lag_trend,
}

abbrev pub is_increasing : LagTrend → Bool
is_increasing increasing = true
is_increasing _ = false

module _ {F : Type 0} ⦃f : Float64 F⦄ where
  open f use {of_int, div, mul, lt}

  unfoldable pub calculate_metrics :
      PartitionConsumerStatus F → List OffsetRecord → PartitionConsumerStatus F
  calculate_metrics result records = record result {
    is_active = is_consumer_active records;
    time_since_last_move = time_since_last_offset_change records;
    consumption_rate = calculate_consumption_rate records;
    lag_change_rate = calculate_lag_change_rate records;
  }

  -- `time.Duration.Round` and the verbs of the messages are left to the reader of a `Message`.
  determine_idle : Config F → PartitionConsumerStatus F → PartitionConsumerStatus F
  determine_idle config result =
      if eqb_ℤ result.current_lag (pos 0)
      then record result { status = empty; message = idle_caught_up }
      else if ltb_ℤ config.inactivity_timeout result.time_since_last_move
      then record result {
        status = stopped;
        message = stopped_for result.time_since_last_move result.current_lag;
      }
      else record result { status = stalled; message = stalled_for result.time_since_last_move }

  unfoldable pub determine_status : Config F → PartitionConsumerStatus F → PartitionConsumerStatus F
  unfolding determine_idle
  determine_status config result =
      if not result.is_active
      then determine_idle config result
      else if lt result.consumption_rate config.stalled_consumption_rate
      then record result { status = stalled; message = slow_consumption result.consumption_rate }
      else if eqb_ℤ result.current_lag (pos 0)
      then record result { status = empty; message = active_caught_up }
      else if lt config.rapid_lag_increase_rate result.lag_change_rate
      then record result { status = lagging; message = lag_rising result.lag_change_rate }
      else record result {
        status = active;
        message = processing result.consumption_rate result.current_lag;
      }

  unfoldable pub determine_trend :
      Config F → PartitionConsumerStatus F → List OffsetRecord → PartitionConsumerStatus F
  determine_trend config result records =
      if ltb (length records) 3
      then record result { lag_trend = trend_unknown }
      else record result { lag_trend = calculate_lag_trend config records }

  health_of : Config F → PartitionConsumerStatus F → ConsumerStatus → ConsumerHealth
  health_of config result stopped = critical
  health_of config result stalled = critical
  health_of config result lagging =
      if is_increasing result.lag_trend && lt config.rapid_lag_increase_rate result.lag_change_rate
      then critical
      else warning
  health_of config result empty =
      if is_increasing result.lag_trend && ltb_ℤ (pos 1000) result.current_lag
      then warning
      else good
  health_of config result active =
      if is_increasing result.lag_trend && ltb_ℤ (pos 1000) result.current_lag
      then warning
      else good
  health_of config result _ = warning

  unfoldable pub determine_health : Config F → PartitionConsumerStatus F → PartitionConsumerStatus F
  unfolding health_of
  determine_health config result = record result { health = health_of config result result.status }

  -- A status with every field at its zero value but the names.
  abbrev pub blank_status : Str → Str → ℤ → PartitionConsumerStatus F
  blank_status group_id topic partition = record {
    group_id = group_id;
    topic = topic;
    partition = partition;
    current_offset = pos 0;
    high_watermark = pos 0;
    current_lag = pos 0;
    last_update_time = zero_time;
    status = no_status;
    lag_trend = no_trend;
    health = no_health;
    consumption_rate = zero_float;
    lag_change_rate = zero_float;
    window_completeness = zero_float;
    message = no_message;
    is_active = false;
    time_since_last_move = pos 0;
  }

  -- `result` as it is first built from the latest record.
  unfoldable pub initial_result :
      Config F → OffsetRecord → ℕ → Str → Str → ℤ → PartitionConsumerStatus F
  initial_result config latest count group_id topic partition =
      record (blank_status group_id topic partition) {
        current_offset = latest.offset;
        high_watermark = latest.high_watermark;
        current_lag = latest.lag;
        last_update_time = latest.check_timestamp;
        window_completeness =
            mul (div (of_int (pos count)) (of_int (pos config.window_size))) (of_int (pos 100));
      }

  unfoldable pub evaluate_partition_consumer :
      Config F → List OffsetRecord → Str → Str → ℤ → PartitionConsumerStatus F
  unfolding initial_result calculate_metrics determine_status determine_trend determine_health
  evaluate_partition_consumer config [] group_id topic partition =
      record (blank_status group_id topic partition) {
        status = unknown;
        lag_trend = trend_unknown;
        health = warning;
        message = no_data_available;
      }
  evaluate_partition_consumer config (first ∷ rest) group_id topic partition =
      let records = first ∷ rest in
      let result =
        initial_result config (last first rest) (length records) group_id topic partition in
      let with_metrics = calculate_metrics result records in
      let with_status = determine_status config with_metrics in
      let with_trend = determine_trend config with_status records in
      if ltb (length records) config.min_window_size
      then record result {
        status = unknown;
        lag_trend = trend_unknown;
        health = warning;
        message = insufficient_data (length records) config.min_window_size;
      }
      else determine_health config with_trend
