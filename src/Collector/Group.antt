-- ===== src/Collector/Group.antt =====
-- internal/collector/collector.go: `collectGroupMetricsWithCluster`, the status of a whole group.
pub mod Filed
pub mod Summary
pub mod Keeps
use lag_radar.Base.{ℕ, ◌+◌, Bool, List, [], ◌∷◌, ◌++◌, length, ltb, if◌then◌else◌}
use lag_radar.Base.Int.{ℤ, pos}
use lag_radar.Base.Word.{add_i64}
use lag_radar.Base.Text.{Str}
use lag_radar.Base.Clock.{Time}
use lag_radar.Base.Float.{Float64}
use lag_radar.Base.Result.{Result, ok, err}
use lag_radar.Metrics.{
  Write, set, consumer_group_health, consumer_group_total_lag, consumer_group_active_partitions,
  consumer_group_stopped_partitions, consumer_group_stalled_partitions,
}
use lag_radar.Collector.Types.{
  ConsumerStatus, active, stalled, stopped, empty, ConsumerHealth, good, warning, critical,
  no_health, PartitionConsumerStatus, GroupStatus,
}
use lag_radar.Collector.State.{
  TopicPartitionOffset, Error, group_offsets_failed, Round, Setup, Collector,
}
use lag_radar.Collector.Partition.{health_code, evaluate_partition}

module _ {F : Type 0} where
  -- `switch partitionStatus.Status`
  unfoldable pub count_state : ConsumerStatus → GroupStatus F → GroupStatus F
  count_state active g = record g { active_partitions = g.active_partitions + 1 }
  count_state empty g = record g { active_partitions = g.active_partitions + 1 }
  count_state stopped g = record g { stopped_partitions = g.stopped_partitions + 1 }
  count_state stalled g = record g { stalled_partitions = g.stalled_partitions + 1 }
  count_state _ g = g

  -- `switch partitionStatus.Health`
  unfoldable pub file_by_health :
      ConsumerHealth → PartitionConsumerStatus F → GroupStatus F → GroupStatus F
  file_by_health critical s g = record g { critical_partitions = g.critical_partitions ++ s ∷ [] }
  file_by_health warning s g = record g { warning_partitions = g.warning_partitions ++ s ∷ [] }
  file_by_health good s g = record g { healthy_partitions = g.healthy_partitions ++ s ∷ [] }
  file_by_health _ s g = g

  -- What the loop does with the status of a partition. The running `totalLag` is kept in `total_lag`,
  -- which the source sets after the loop.
  unfoldable pub add_partition : PartitionConsumerStatus F → GroupStatus F → GroupStatus F
  unfolding count_state file_by_health
  add_partition s g =
      let lagged = record g { total_lag = add_i64 g.total_lag s.current_lag } in
      file_by_health s.health s (count_state s.status lagged)

  unfoldable pub overall_health : GroupStatus F → ConsumerHealth
  overall_health g =
      if ltb 0 (length g.critical_partitions)
      then critical
      else if ltb 0 (length g.warning_partitions)
      then warning
      else good

  unfoldable pub new_group : Str → ℕ → Time → ℕ → GroupStatus F
  new_group group_id members now partitions = record {
    group_id = group_id;
    overall_health = no_health;
    total_lag = pos 0;
    partition_count = partitions;
    active_partitions = 0;
    stopped_partitions = 0;
    stalled_partitions = 0;
    member_count = pos members;
    last_update_time = now;
    critical_partitions = [];
    warning_partitions = [];
    healthy_partitions = [];
  }

  -- A partition whose evaluation fails is logged and left out.
  abbrev pub note_partition :
      Result Error (PartitionConsumerStatus F) → GroupStatus F → GroupStatus F
  note_partition (ok s) g = add_partition s g
  note_partition (err e) g = g

module _ {F : Type 0} ⦃f : Float64 F⦄ where
  -- `updateMetricsWithCluster`
  unfoldable pub group_writes : GroupStatus F → Str → List (Write F)
  unfolding health_code
  group_writes g cluster =
      let labels = cluster ∷ g.group_id ∷ [] in
      set consumer_group_health labels (f.of_int (health_code g.overall_health))
      ∷ set consumer_group_total_lag labels (f.of_int g.total_lag)
      ∷ set consumer_group_active_partitions labels (f.of_int (pos g.active_partitions))
      ∷ set consumer_group_stopped_partitions labels (f.of_int (pos g.stopped_partitions))
      ∷ set consumer_group_stalled_partitions labels (f.of_int (pos g.stalled_partitions))
      ∷ []

module _ {F H : Type 0} ⦃f : Float64 F⦄ (setup : Setup F H) (cluster : Str) (round : Round F) where
  -- The loop over the offsets of a group.
  unfoldable pub collect_partitions :
      Str
      → List TopicPartitionOffset
      → GroupStatus F
      → Collector F H
      → GroupStatus F × Collector F H
  collect_partitions group_id [] g c = (g, c)
  collect_partitions group_id (tpo ∷ offsets) g c =
      let (answer, c') = evaluate_partition setup cluster round group_id tpo c in
      collect_partitions group_id offsets (note_partition answer g) c'

  unfoldable pub collect_offsets :
      Str
      → ℕ
      → Collector F H
      → Result Error (List TopicPartitionOffset)
      → Result Error (GroupStatus F) × Collector F H
  unfolding new_group overall_health
  collect_offsets group_id members c (err e) = (err (group_offsets_failed cluster e), c)
  collect_offsets group_id members c (ok offsets) =
      let g = new_group group_id members (round.group_now group_id) (length offsets) in
      let (filled, c') = collect_partitions group_id offsets g c in
      (ok (record filled { overall_health = overall_health filled }), c')

  unfoldable pub collect_group_metrics :
      Str → ℕ → Collector F H → Result Error (GroupStatus F) × Collector F H
  unfolding collect_offsets
  collect_group_metrics group_id members c =
      collect_offsets group_id members c (round.get_consumer_group_offsets group_id)
