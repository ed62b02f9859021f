-- ===== src/Collector/Partition.antt =====
-- internal/collector/collector.go: `evaluatePartition` and the metrics of a partition.
pub mod Latest
use lag_radar.Base.{◌/◌, List, [], ◌∷◌, ◌++◌, Option, none, some, if◌then◌else◌}
use lag_radar.Base.Int.{ℤ, pos, negsuc, ltb_ℤ}
use lag_radar.Base.Word.{sub_i64, eqb_ℤ}
use lag_radar.Base.Text.{Str, itoa}
use lag_radar.Base.Clock.{Time, unix}
use lag_radar.Base.Float.{Float64, seconds}
use lag_radar.Base.Result.{Result, ok, err}
use lag_radar.Metrics.{
  Write, set, consumer_lag, consumer_current_offset, log_end_offset, consumer_status,
  consumer_lag_trend, consumer_health, consumer_consumption_rate, consumer_lag_change_rate,
  consumer_time_since_last_activity, consumer_last_activity_timestamp,
}
use lag_radar.Collector.Types.{
  ConsumerStatus, active, lagging, stalled, stopped, empty, unknown, LagTrend, increasing,
  decreasing, stable, ConsumerHealth, good, warning, critical, OffsetRecord,
  PartitionConsumerStatus, no_committed_offset,
}
use lag_radar.Collector.Evaluator.{blank_status, evaluate_partition_consumer}
use lag_radar.Collector.Window.{window_key, add_to_window, get_window_records}
use lag_radar.Collector.State.{TopicPartitionOffset, Error, Round, Hook, Setup, Collector}

-- `highWatermark - offset`, and 0 if that is negative.
unfoldable pub lag_of : ℤ → ℤ → ℤ
lag_of high_watermark offset =
    let lag = sub_i64 high_watermark offset in if ltb_ℤ lag (pos 0) then pos 0 else lag

-- The values of the gauges, as integers: `statusToFloat`, `trendToFloat`, `healthToFloat`.
unfoldable pub status_code : ConsumerStatus → ℤ
status_code active = pos 0
status_code lagging = pos 1
status_code stalled = pos 2
status_code stopped = pos 3
status_code empty = pos 4
status_code _ = negsuc 0

unfoldable pub trend_code : LagTrend → ℤ
trend_code stable = pos 1
trend_code increasing = pos 2
trend_code decreasing = pos 3
trend_code _ = pos 0

unfoldable pub health_code : ConsumerHealth → ℤ
health_code good = pos 0
health_code warning = pos 1
health_code critical = pos 2
health_code _ = negsuc 0

-- `evaluatePartition`'s record of what Kafka answered.
abbrev pub offset_record : TopicPartitionOffset → ℤ → Time → OffsetRecord
offset_record tpo high_watermark now = record {
  offset = tpo.offset;
  high_watermark = high_watermark;
  lag = lag_of high_watermark tpo.offset;
  check_timestamp = now;
}

module _ {F : Type 0} ⦃f : Float64 F⦄ where
  -- `updatePartitionMetricsWithCluster`: its writes in their order.
  unfoldable pub partition_writes : PartitionConsumerStatus F → Str → List (Write F)
  unfolding status_code trend_code health_code unix
  partition_writes s cluster =
      let partition = itoa s.partition in
      let labels = cluster ∷ s.group_id ∷ s.topic ∷ partition ∷ [] in
      set consumer_current_offset labels (f.of_int s.current_offset)
      ∷ set consumer_lag labels (f.of_int s.current_lag)
      ∷ set log_end_offset (cluster ∷ s.topic ∷ partition ∷ []) (f.of_int s.high_watermark)
      ∷ set consumer_status labels (f.of_int (status_code s.status))
      ∷ set consumer_lag_trend labels (f.of_int (trend_code s.lag_trend))
      ∷ set consumer_health labels (f.of_int (health_code s.health))
      ∷ set consumer_consumption_rate labels s.consumption_rate
      ∷ set consumer_lag_change_rate labels s.lag_change_rate
      ∷ set consumer_time_since_last_activity labels (seconds s.time_since_last_move)
      ∷ (if s.is_active
          then set consumer_last_activity_timestamp labels (f.of_int (unix s.last_update_time)) ∷ []
          else [])

module _ {F H : Type 0} where
  abbrev pub run_hook : Option (Hook F H) → PartitionConsumerStatus F → List OffsetRecord → H → H
  run_hook none status records h = h
  run_hook (some hook) status records h = hook status records h

module _ {F H : Type 0} ⦃f : Float64 F⦄ (setup : Setup F H) (cluster : Str) (round : Round F) where
  -- The answer for a partition with no committed offset. Nothing is recorded for it.
  unfoldable pub uncommitted : Str → TopicPartitionOffset → ℤ → PartitionConsumerStatus F
  uncommitted group_id tpo high_watermark = record (blank_status group_id tpo.topic tpo.partition) {
    status = unknown;
    health = warning;
    message = no_committed_offset;
    high_watermark = high_watermark;
  }

  -- The rest of `evaluatePartition`, for a committed offset.
  unfoldable pub evaluate_record :
      Str
      → TopicPartitionOffset
      → OffsetRecord
      → Collector F H
      → PartitionConsumerStatus F × Collector F H
  evaluate_record group_id tpo r c =
      let key = window_key group_id tpo.topic tpo.partition in
      let windows = add_to_window setup.config key r c.windows in
      let records = get_window_records key windows in
      let status =
        evaluate_partition_consumer setup.config records group_id tpo.topic tpo.partition in
      (
        status,
        record c {
          windows = windows;
          hook_state = run_hook setup.evaluation_hook status records c.hook_state;
          written = c.written ++ partition_writes status cluster;
        },
      )

  evaluate_at :
      Str
      → TopicPartitionOffset
      → Collector F H
      → Result Error ℤ
      → Result Error (PartitionConsumerStatus F) × Collector F H
  unfolding uncommitted
  evaluate_at group_id tpo c (err e) = (err e, c)
  evaluate_at group_id tpo c (ok high_watermark) =
      let r = offset_record tpo high_watermark (round.now group_id tpo) in
      let (status, c') = evaluate_record group_id tpo r c in
      if eqb_ℤ tpo.offset setup.offset_invalid
      then (ok (uncommitted group_id tpo high_watermark), c)
      else (ok status, c')

  unfoldable pub evaluate_partition :
      Str
      → TopicPartitionOffset
      → Collector F H
      → Result Error (PartitionConsumerStatus F) × Collector F H
  unfolding evaluate_at
  evaluate_partition group_id tpo c =
      evaluate_at group_id tpo c (round.get_high_watermark group_id tpo)
