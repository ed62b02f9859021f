-- ===== src/Collector/Group/Summary.antt =====
-- `collectGroupMetricsWithCluster`: how the statuses of the partitions add up to that of the group.
use lag_radar.Base.{ℕ, ◌≤◌, ◌<◌, ◌≡◌, refl, ◌↔◌, inl, inr, ◌≢◌, List, [], ◌∷◌, arith, length}
use lag_radar.Base.Int.{pos}
use lag_radar.Base.Text.{Str}
use lag_radar.Base.Float.{Float64}
use lag_radar.Base.Result.{ok, err, Result-cases}
use lag_radar.Collector.Types.{
  OffsetRecord, good, critical, no_health, PartitionConsumerStatus, GroupStatus,
}
use lag_radar.Collector.Evaluator.Status.{evaluate_total}
use lag_radar.Collector.State.{
  TopicPartitionOffset, Error, group_offsets_failed, Round, Setup, Collector,
}
use lag_radar.Collector.Partition.{offset_record, evaluate_partition, evaluate_record}
use lag_radar.Collector.Window.{window_key, add_to_window, get_window_records}
use lag_radar.Collector.Group.{
  add_partition, overall_health, new_group, collect_partitions, collect_group_metrics,
}
use lag_radar.Collector.Group.Filed.{
  is_critical, is_warning, is_good, is_active_or_empty, is_stopped, is_stalled, passing, IsFiled,
  lag_sum, keep_ok, add_all, HasHealth, filed, counted, criticals, warnings, add_all-IsFiled,
  add_all-named, add_all_counts,
}

module _ {F H : Type 0} ⦃f : Float64 F⦄ (setup : Setup F H) (cluster : Str) (round : Round F) where
  -- The statuses of the partitions whose evaluation succeeds, one evaluation after the other.
  unfoldable pub statuses :
      Str → List TopicPartitionOffset → Collector F H → List (PartitionConsumerStatus F)
  statuses group_id [] c = []
  statuses group_id (tpo ∷ offsets) c =
      let (answer, c') = evaluate_partition setup cluster round group_id tpo c in
      keep_ok answer (statuses group_id offsets c')

  collect_partitions-add_all :
      (group_id : Str) (offsets : List TopicPartitionOffset) (g : GroupStatus F) (c : Collector F H)
      → (collect_partitions setup cluster round group_id offsets g c).0
        ≡ add_all (statuses group_id offsets c) g
  unfolding collect_partitions add_all statuses
  collect_partitions-add_all group_id [] g c = refl
  collect_partitions-add_all group_id (tpo ∷ offsets) g c =
      let result = evaluate_partition setup cluster round group_id tpo c in
      elim (Result-cases result.0) [
        | inl (s, e) ↦
            rw (e, collect_partitions)
              (collect_partitions-add_all group_id offsets (add_partition s g) result.1)
        | inr (x, e) ↦
            rw (e, collect_partitions) (collect_partitions-add_all group_id offsets g result.1)
      ]

  evaluate_record-has_health :
      (group_id : Str) (tpo : TopicPartitionOffset) (r : OffsetRecord) (c : Collector F H)
      → (evaluate_record setup cluster round group_id tpo r c).0.health ≢ no_health
  unfolding evaluate_record
  evaluate_record-has_health group_id tpo r c =
      (evaluate_total setup.config
        (get_window_records (window_key group_id tpo.topic tpo.partition)
          (add_to_window setup.config (window_key group_id tpo.topic tpo.partition) r c.windows))
        group_id tpo.topic tpo.partition).2

  evaluate_partition-has_health :
      (group_id : Str) (tpo : TopicPartitionOffset) (c : Collector F H)
      (s : PartitionConsumerStatus F)
      → (evaluate_partition setup cluster round group_id tpo c).0 ≡ ok s
      → s.health ≢ no_health
  unfolding evaluate_partition
  evaluate_partition-has_health group_id tpo c s e =
      elim (Result-cases (round.get_high_watermark group_id tpo)) [
        | inl (high, answer) ↦
            let r = offset_record tpo high (round.now group_id tpo) in
            let healthy = evaluate_record-has_health group_id tpo r c in ground (arith, healthy)
        | inr (x, failed) ↦ ground arith
      ]

  statuses-HasHealth :
      (group_id : Str) (offsets : List TopicPartitionOffset) (c : Collector F H)
      → HasHealth (statuses group_id offsets c)
  unfolding statuses
  statuses-HasHealth group_id [] c = tt
  statuses-HasHealth group_id (tpo ∷ offsets) c =
      let result = evaluate_partition setup cluster round group_id tpo c in
      elim (Result-cases result.0) [
        | inl (s, e) ↦ rw e (
          evaluate_partition-has_health group_id tpo c s e,
          statuses-HasHealth group_id offsets result.1,
        )
        | inr (x, e) ↦ rw e (statuses-HasHealth group_id offsets result.1)
      ]

  length-statuses :
      (group_id : Str) (offsets : List TopicPartitionOffset) (c : Collector F H)
      → length (statuses group_id offsets c) ≤ length offsets
  unfolding statuses
  length-statuses group_id [] c = omega arith
  length-statuses group_id (tpo ∷ offsets) c =
      let result = evaluate_partition setup cluster round group_id tpo c in
      elim (Result-cases result.0) [
        | inl (s, e) ↦ rw e (omega (arith, length-statuses group_id offsets result.1))
        | inr (x, e) ↦ rw e (omega (arith, length-statuses group_id offsets result.1))
      ]

  -- Where Kafka gives the offsets of a group, the collection succeeds. The partitions whose evaluation
  -- succeeded are those that the group lists: the critical ones, those with a warning and the good
  -- ones each with their whole statuses and in the order of the offsets, and no other. The counts
  -- are those of the statuses that are active or empty, stopped, and stalled, and their sum is at most
  -- the number of statuses. The total lag is the sum over the statuses; and the group is `critical`
  -- exactly when one of them is, and `good` exactly when none is critical or a warning.
  pub collect_group_summary :
      (group_id : Str) (members : ℕ) (c : Collector F H) {offsets : List TopicPartitionOffset}
      → round.get_consumer_group_offsets group_id ≡ ok offsets
      → let ss = statuses group_id offsets c in
        (g : GroupStatus F) × ((collect_group_metrics setup cluster round group_id members c).0
          ≡ ok g)
        × (g.group_id ≡ group_id)
        × (g.member_count ≡ pos members)
        × (g.partition_count ≡ length offsets)
        × (g.critical_partitions ≡ passing (λ s. is_critical s.health) ss)
        × (g.warning_partitions ≡ passing (λ s. is_warning s.health) ss)
        × (g.healthy_partitions ≡ passing (λ s. is_good s.health) ss)
        × (g.active_partitions ≡ length (passing (λ s. is_active_or_empty s.status) ss))
        × (g.stopped_partitions ≡ length (passing (λ s. is_stopped s.status) ss))
        × (g.stalled_partitions ≡ length (passing (λ s. is_stalled s.status) ss))
        × (filed g ≡ length ss)
        × (length ss ≤ length offsets)
        × (counted g ≤ length ss)
        × (g.total_lag ≡ lag_sum (pos 0) ss)
        × ((g.overall_health ≡ critical) ↔ (0 < criticals ss))
        × ((g.overall_health ≡ good) ↔ ((criticals ss ≡ 0) × (warnings ss ≡ 0)))
  unfolding collect_group_metrics IsFiled
  collect_group_summary group_id members c {offsets} answer =
      let ss = statuses group_id offsets c in
      let start : GroupStatus F =
        new_group group_id members (round.group_now group_id) (length offsets) in
      let counts = add_all_counts ss start (statuses-HasHealth group_id offsets c) in
      let filled = add_all ss start in
      let (c_filed, w_filed, h_filed, a_counted, o_counted, t_counted) = add_all-IsFiled ss start in
      (
        record filled { overall_health = overall_health filled },
        rw (answer, collect_partitions-add_all group_id offsets start c),
        (add_all-named ss start).0,
        (add_all-named ss start).1,
        ground (arith, counts),
        c_filed,
        w_filed,
        h_filed,
        omega (arith, a_counted),
        omega (arith, o_counted),
        omega (arith, t_counted),
        ground (arith, counts),
        length-statuses group_id offsets c,
        ground (arith, counts),
        ground (arith, counts),
        (λ h. ground (arith, counts), λ h. ground (arith, counts)),
        (λ h. ground (arith, counts), λ h. ground (arith, counts)),
      )

  -- Where Kafka does not give the offsets of a group, the error is returned, and the collector is left
  -- as it was.
  pub collect_group_metrics_failed :
      (group_id : Str) (members : ℕ) (c : Collector F H) {e : Error}
      → round.get_consumer_group_offsets group_id ≡ err e
      → collect_group_metrics setup cluster round group_id members c
        ≡ (err (group_offsets_failed cluster e), c)
  unfolding collect_group_metrics
  collect_group_metrics_failed group_id members c failed = rw failed
