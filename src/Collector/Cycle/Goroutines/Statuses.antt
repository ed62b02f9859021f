-- ===== src/Collector/Cycle/Goroutines/Statuses.antt =====
-- The statuses that a collection leaves, whatever the order of its goroutines and of their results.
use lag_radar.Base.{
  ℕ, ◌≤◌, ◌≡◌, refl, sym, ap, ◌∙◌, ◌⊎◌, inl, inr, List, [], ◌∷◌, Bool-cases, some, none, arith,
}
use lag_radar.Base.Text.{Str, str_eq, str_eq_iff}
use lag_radar.Base.Float.{Float64}
use lag_radar.Base.Map.{Map, Distinct, lookup}
use lag_radar.Base.Result.{ok}
use lag_radar.Collector.State.{Round, Setup, Collector}
use lag_radar.Collector.Cycle.{
  or_empty, counted, collect_groups, collect_listed, collect_metrics, returned, store_results,
  get_group_status,
}
use lag_radar.Collector.Cycle.Results.{Results, Listed, collect_groups-status_store}
use lag_radar.Collector.Cycle.Order.{chosen, store_results_any_order}
use lag_radar.Collector.Cycle.Goroutines.{Threads, Runs, begin, sent, IsFinished}
use lag_radar.Collector.Cycle.Goroutines.Interleaved.{KafkaNames, sent-Runs, status_store-Runs}
use lag_radar.Collector.Cycle.Goroutines.Sequential.{
  Once, lookup-collect_groups, lookup-collect_groups-none, collect_groups-Distinct,
}

Listed-cases : (g : Str) (groups : List Str) → Listed g groups ⊎ (¬ Listed g groups)
Listed-cases g [] = inr (λ l. l)
Listed-cases g (h ∷ groups) = elim (Bool-cases (str_eq h g)) [
  | inl same ↦ inl (inl ((str_eq_iff h g).0 same))
  | inr other ↦ elim (Listed-cases g groups) [
    | inl later ↦ inl (inr later)
    | inr never ↦ inr (λ l. elim l [
      | inl here ↦ absurd (ground (arith, str_eq_iff h g))
      | inr later ↦ never later
    ])
  ]
]

module _ {F H : Type 0} ⦃f : Float64 F⦄ (setup : Setup F H) (cluster : Str) (round : Round F) where
  -- What the goroutines of the groups have sent, once each, in any order.
  abbrev pub AllSent : List Str → Results setup cluster round → Threads F → Type 0
  AllSent groups results them =
      Distinct results
      × ((g : Str)
          → Listed g groups
          → IsFinished setup cluster round (them g)
            × (lookup g results ≡ some (sent setup cluster round g (them g))))
      × ((g : Str) → ¬ Listed g groups → lookup g results ≡ none)

  -- With room for a goroutine, and a Kafka that lists each group once, whose topics have no colons and
  -- whose partitions are int32s: the goroutines of the groups take their steps between the locks in any
  -- order, and their results arrive in any order. The statuses that are then stored are those of the
  -- collection that runs the groups one after the other, which returns without an error.
  pub collect_metrics_any_order :
      (members : Map ℕ) (groups : List Str) (g : Str) (c : Collector F H)
      (results : Results setup cluster round) {last : Collector F H} {them : Threads F}
      → KafkaNames setup cluster round
      → Once groups
      → 1 ≤ setup.config.max_concurrency
      → round.list_consumer_groups ≡ ok groups
      → or_empty round.get_consumer_group_members ≡ members
      → Runs setup cluster round
          (counted setup cluster round members groups c)
          (begin setup cluster round members)
          last
          them
      → AllSent groups results them
      → (after : Collector F H) × (collect_metrics setup cluster round c ≡ returned (none, after))
        × (get_group_status g (store_results setup cluster round results last)
            ≡ get_group_status g after)
  unfolding collect_metrics collect_listed get_group_status
  collect_metrics_any_order members groups g c results {last} {them} names once room listed
        described ran (distinct, finished, unsent) =
      let first = counted setup cluster round members groups c in
      let (rs, d) = collect_groups setup cluster round members groups first in
      let same : (h : Str) → lookup h results ≡ lookup h rs = λ h. elim (Listed-cases h groups) [
        | inl there ↦
            (finished h there).1
            ∙ ap some (sent-Runs setup cluster round members h names ran (finished h there).0)
            ∙ sym (lookup-collect_groups setup cluster round members h groups first names there)
        | inr never ↦
            unsent h never
            ∙ sym (lookup-collect_groups-none setup cluster round members h groups first never)
      ] in
      let rs_distinct = collect_groups-Distinct setup cluster round members groups first once in
      let left =
        (store_results_any_order setup cluster round g results results last distinct distinct
          (λ h. refl)).1 in
      let right =
        (store_results_any_order setup cluster round g rs rs d rs_distinct rs_distinct
          (λ h. refl)).1 in
      let before : last.status_store ≡ d.status_store =
        status_store-Runs setup cluster round ran
        ∙ sym (collect_groups-status_store setup cluster round members groups first) in
      (
        collect_listed setup cluster round groups c,
        rw listed (ground arith),
        left
            ∙ ap (λ r. chosen setup cluster round r (lookup g last.status_store)) (same g)
            ∙ ap (λ store. chosen setup cluster round (lookup g rs) (lookup g store)) before
            ∙ sym right
            ∙ ap (λ m. get_group_status g (collect_with m)) (sym described),
      )
    where
      collect_with : Map ℕ → Collector F H
      collect_with m =
          let (rs, d) =
            collect_groups setup cluster round m groups (counted setup cluster round m groups c) in
          store_results setup cluster round rs d
