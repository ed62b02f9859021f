-- ===== src/Tests/Collection.antt =====
-- A collection of the two groups, and runs of the loop.
use lag_radar.Base.{ℕ, ◌≤◌, ◌<◌, ◌≡◌, refl, ◌↔◌, inr, List, [], ◌∷◌, none, arith, length}
use lag_radar.Base.Int.{ℤ, pos}
use lag_radar.Base.Text.{str_eq, itoa}
use lag_radar.Base.Clock.{second}
use lag_radar.Base.Map.{lookup}
use lag_radar.Base.Result.{ok}
use lag_radar.Metrics.{inc, set, scrape_errors, scrape_duration}
use lag_radar.Collector.Types.{PartitionConsumerStatus, GroupStatus, critical, good}
use lag_radar.Collector.Window.{window_key}
use lag_radar.Collector.State.{client_error, Collector, new_with_client}
use lag_radar.Collector.Partition.{lag_of, evaluate_partition}
use lag_radar.Collector.Partition.Latest.{IsSized, evaluate_partition_reports}
use lag_radar.Collector.Group.{collect_group_metrics}
use lag_radar.Collector.Group.Summary.{statuses, collect_group_summary}
use lag_radar.Collector.Group.Filed.{
  is_critical, is_warning, is_good, is_active_or_empty, is_stopped, is_stalled, passing, filed,
  counted, lag_sum, criticals, warnings,
}
use lag_radar.Collector.Cycle.{
  returned, collect_metrics, get_group_status, Wake, tick, run_loop, start_periodic_collection,
}
use lag_radar.Collector.Cycle.Store.{collect_metrics_keeps_stale}
use lag_radar.Collector.Cycle.Labels.{Labelled, all_writes-Labelled}
use lag_radar.Tests.{
  whole, billing, lost, local, first_partition, offsets, round, down, setup, fresh,
}

evaluate_partition_reports_example :
    (s : PartitionConsumerStatus ℤ) × (c : Collector ℤ ℕ) × (evaluate_partition setup local round
        billing first_partition fresh
      ≡ (ok s, c))
    × (s.current_offset ≡ pos 5)
    × (s.high_watermark ≡ pos 9)
    × (s.current_lag ≡ lag_of (pos 9) (pos 5))
    × (s.last_update_time ≡ pos second)
    × IsSized setup.config c.windows
    × (lookup lost c.windows ≡ none)
unfolding lookup window_key str_eq itoa
evaluate_partition_reports_example =
    evaluate_partition_reports setup local round billing first_partition fresh lost (omega arith)
      (λ key w found. ground arith) refl (λ e. ground arith) refl

collect_group_summary_example :
    let ss = statuses setup local round billing offsets fresh in
    (g : GroupStatus ℤ) × ((collect_group_metrics setup local round billing 1 fresh).0 ≡ ok g)
    × (g.group_id ≡ billing)
    × (g.member_count ≡ pos 1)
    × (g.partition_count ≡ 1)
    × (g.critical_partitions ≡ passing (λ s. is_critical s.health) ss)
    × (g.warning_partitions ≡ passing (λ s. is_warning s.health) ss)
    × (g.healthy_partitions ≡ passing (λ s. is_good s.health) ss)
    × (g.active_partitions ≡ length (passing (λ s. is_active_or_empty s.status) ss))
    × (g.stopped_partitions ≡ length (passing (λ s. is_stopped s.status) ss))
    × (g.stalled_partitions ≡ length (passing (λ s. is_stalled s.status) ss))
    × (filed g ≡ length ss)
    × (length ss ≤ 1)
    × (counted g ≤ length ss)
    × (g.total_lag ≡ lag_sum (pos 0) ss)
    × ((g.overall_health ≡ critical) ↔ (0 < criticals ss))
    × ((g.overall_health ≡ good) ↔ ((criticals ss ≡ 0) × (warnings ss ≡ 0)))
unfolding str_eq
collect_group_summary_example = collect_group_summary setup local round billing 1 fresh refl

collect_metrics_keeps_stale_example :
    (c : Collector ℤ ℕ) × (collect_metrics setup local round fresh ≡ returned (none, c))
    × (get_group_status lost c ≡ get_group_status lost fresh)
unfolding str_eq
collect_metrics_keeps_stale_example =
    collect_metrics_keeps_stale setup local round fresh lost refl (omega arith)
      (inr (client_error 1, refl))

-- A collection, and a cleanup after Kafka has gone down.
abbrev wakes : List (Wake ℤ)
wakes = tick round ∷ tick down ∷ []

abbrev failing : Collector ℤ ℕ
failing = record fresh {
  written = inc scrape_errors (local ∷ []) ∷ set scrape_duration (local ∷ []) (pos 1) ∷ [];
}

all_writes-Labelled_example : Labelled setup local failing
unfolding start_periodic_collection new_with_client run_loop collect_metrics
all_writes-Labelled_example = all_writes-Labelled setup local 0 down [] failing refl
