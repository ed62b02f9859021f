-- ===== src/Collector/Cycle/Goroutines/Fresh.antt =====
-- `CollectMetricsWithCluster`: which status a collection stores for a group.
use lag_radar.Base.{◌≤◌, ◌≡◌, refl, ap, ◌∙◌, List, some, none, arith}
use lag_radar.Base.Text.{Str}
use lag_radar.Base.Float.{Float64}
use lag_radar.Base.Map.{lookup}
use lag_radar.Base.Result.{ok}
use lag_radar.Collector.Types.{GroupStatus}
use lag_radar.Collector.State.{TopicPartitionOffset, Round, Setup, Collector}
use lag_radar.Collector.Group.{collect_group_metrics}
use lag_radar.Collector.Group.Summary.{collect_group_summary}
use lag_radar.Collector.Cycle.{
  or_zero, or_empty, counted, collect_groups, collect_listed, collect_metrics, returned,
  get_group_status, store_results,
}
use lag_radar.Collector.Cycle.Results.{Listed}
use lag_radar.Collector.Cycle.Order.{chosen, store_results_any_order}
use lag_radar.Collector.Cycle.Goroutines.Interleaved.{KafkaNames}
use lag_radar.Collector.Cycle.Goroutines.Sequential.{
  Once, lookup-collect_groups, collect_groups-Distinct, collect_group_metrics-SameWindows,
}

module _ {F H : Type 0} ⦃f : Float64 F⦄ (setup : Setup F H) (cluster : Str) (round : Round F) where
  -- With room for a goroutine, and a Kafka that lists each group once, whose topics have no colons and
  -- whose partitions are int32s: a collection returns without an error, and the status that it has
  -- stored for a group of the list whose offsets Kafka gave is the one that the collection of this
  -- group alone computes from the windows before the collection, whatever the other groups are and
  -- whatever status was stored before.
  pub collect_metrics_stores_status :
      (c : Collector F H) (g : Str) {groups : List Str} {offsets : List TopicPartitionOffset}
      → KafkaNames setup cluster round
      → Once groups
      → round.list_consumer_groups ≡ ok groups
      → 1 ≤ setup.config.max_concurrency
      → Listed g groups
      → round.get_consumer_group_offsets g ≡ ok offsets
      → let members = or_zero (lookup g (or_empty round.get_consumer_group_members)) in
        (after : Collector F H) × (s : GroupStatus F) × (collect_metrics setup cluster round c
          ≡ returned (none, after))
        × (get_group_status g after ≡ some s)
        × ((collect_group_metrics setup cluster round g members c).0 ≡ ok s)
  unfolding collect_metrics collect_listed store_results collect_groups get_group_status
  collect_metrics_stores_status c g {groups} names once listed room l answer =
      let members = or_empty round.get_consumer_group_members in
      let start = counted setup cluster round members groups c in
      let (results, d) = collect_groups setup cluster round members groups start in
      let summary =
        collect_group_summary setup cluster round g (or_zero (lookup g members)) c answer in
      let distinct = collect_groups-Distinct setup cluster round members groups start once in
      let found : lookup g results ≡ some (ok summary.0) =
        lookup-collect_groups setup cluster round members g groups start names l
        ∙ ap some (
            collect_group_metrics-SameWindows setup cluster round g (or_zero (lookup g members))
              start c names (λ tpo p. refl)
            ∙ summary.1) in
      let stored =
        (store_results_any_order setup cluster round g results results d distinct distinct
          (λ h. refl)).1 in
      (
        collect_listed setup cluster round groups c,
        summary.0,
        rw listed (ground arith),
        stored ∙ ap (λ r. chosen setup cluster round r (get_group_status g d)) found,
        summary.1,
      )
