-- ===== src/Tests/Evaluator.antt =====
-- Windows of a consumer that has stopped, one that has just paused, and one that is slow.
use lag_radar.Base.{◌*◌, ◌≡◌, refl, inl, List, [], ◌∷◌, arith}
use lag_radar.Base.Int.{ℤ, pos, ◌+ℤ◌, ◌-ℤ◌, ◌*ℤ◌}
use lag_radar.Base.Word.{sub_i64, wrap}
use lag_radar.Base.Clock.{second, sub_time, quot, rem}
use lag_radar.Base.Float.{seconds}
use lag_radar.Collector.Types.{OffsetRecord, PartitionConsumerStatus, stopped, stalled, critical}
use lag_radar.Collector.Evaluator.{evaluate_partition_consumer}
use lag_radar.Collector.Evaluator.Measures.{
  is_consumer_active, time_since_last_offset_change, unique_offsets, contains,
  calculate_consumption_rate, calculate_lag_trend, scan_back,
}
use lag_radar.Collector.Evaluator.Activity.{time_since_last_offset_change_lem, LastStretch}
use lag_radar.Collector.Evaluator.Status.{status-stopped_iff, health-critical_iff, evaluated}
use lag_radar.Tests.{whole, small, seen, orders, billing}

program : Unit {0}
unfolding evaluate_partition_consumer is_consumer_active time_since_last_offset_change
    unique_offsets contains calculate_consumption_rate calculate_lag_trend scan_back sub_time quot
    rem seconds sub_i64 wrap ◌-ℤ◌ ◌+ℤ◌ ◌*ℤ◌
program = tt

-- For 100 seconds at offset 5, and 4 behind.
abbrev old : OffsetRecord
old = seen (pos 5) (pos 4) 0

abbrev stuck : List OffsetRecord
stuck = seen (pos 5) (pos 4) 100 ∷ []

abbrev paused : List OffsetRecord
paused = seen (pos 5) (pos 4) 10 ∷ []

-- One step in 10 seconds, with nothing left to read.
abbrev slow : List OffsetRecord
slow = seen (pos 6) (pos 0) 10 ∷ []

abbrev idle : List OffsetRecord
idle = seen (pos 5) (pos 0) 10 ∷ []

abbrev status_of : List OffsetRecord → PartitionConsumerStatus ℤ
status_of rest = evaluated small old rest billing orders (pos 0)

stopped-status : (status_of stuck).status ≡ stopped
unfolding program
stopped-status = refl

stalled-status : (status_of paused).status ≡ stalled
unfolding program
stalled-status = refl

status-stopped_iff_example : (status_of stuck).status ≡ stopped
unfolding program
status-stopped_iff_example =
    (status-stopped_iff small old stuck billing orders (pos 0)).1
      (omega arith, refl, λ e. ground arith, refl)

health-critical_iff_example : (status_of stuck).health ≡ critical
health-critical_iff_example =
    (health-critical_iff small old stuck billing orders (pos 0)).1 (inl stopped-status)

time_since_last_offset_change_lem_example :
    (s : LastStretch (pos 5) (old ∷ stuck)) × (time_since_last_offset_change (old ∷ stuck)
      ≡ sub_time (pos (100 * second)) s.start.check_timestamp)
time_since_last_offset_change_lem_example =
    time_since_last_offset_change_lem (old ∷ []) (seen (pos 5) (pos 4) 100) (omega arith)
