-- ===== src/Collector/Cycle/Store.antt =====
-- `CollectMetricsWithCluster`: what it leaves in the status store.
use lag_radar.Base.{
  IsSome, ◌≤◌, ◌≡◌, refl, ap, ◌∙◌, ◌⊎◌, inl, inr, List, [], ◌∷◌, ◌++◌, none, some, arith,
  append_assoc,
}
use lag_radar.Base.Text.{Str}
use lag_radar.Base.Float.{Float64}
use lag_radar.Base.Map.{lookup}
use lag_radar.Base.Result.{ok, err}
use lag_radar.Metrics.{inc, set, scrape_errors, scrape_duration}
use lag_radar.Collector.Types.{GroupStatus}
use lag_radar.Collector.Window.{Windows}
use lag_radar.Collector.State.{
  TopicPartitionOffset, Error, list_groups_failed, Round, Setup, Collector,
}
use lag_radar.Collector.Group.Keeps.{Recorded}
use lag_radar.Collector.Cycle.{
  returned, counted, collect_listed, or_empty, emit, get_group_status, collect_groups, store_result,
  store_results, finish, collect_metrics, is_ready,
}
use lag_radar.Collector.Cycle.Results.{
  Listed, Results, Sent, collect_groups-keeps, lookup-store_results, status_after-IsSome,
  status_after_unsent, collect_groups-Sent, collect_groups-unsent, collect_groups-status_store,
}

module _ {F H : Type 0} ⦃f : Float64 F⦄ (setup : Setup F H) (cluster : Str) (round : Round F) where
  -- Where Kafka does not list the groups, the error is returned and counted, and the windows, the
  -- statuses, the readiness and the state of the hook stay as they were.
  pub collect_metrics_failed :
      (c : Collector F H) {e : Error}
      → round.list_consumer_groups ≡ err e
      → (c' : Collector F H) × (collect_metrics setup cluster round c
          ≡ returned (some (list_groups_failed cluster e), c'))
        × (c'.windows ≡ c.windows)
        × (c'.status_store ≡ c.status_store)
        × (is_ready c' ≡ is_ready c)
        × (c'.hook_state ≡ c.hook_state)
        × (c'.written
            ≡ c.written
              ++ (inc scrape_errors (cluster ∷ [])
                  ∷ set scrape_duration (cluster ∷ []) round.scrape_seconds
                  ∷ []))
  unfolding collect_metrics is_ready
  collect_metrics_failed c {e} failed = (
    finish setup cluster round (emit (inc scrape_errors (cluster ∷ []) ∷ []) c),
    rw failed,
    refl,
    refl,
    refl,
    refl,
    append_assoc c.written _ _,
  )

module _ {F H : Type 0} ⦃f : Float64 F⦄ (setup : Setup F H) (cluster : Str) (round : Round F) where
  -- With room for a goroutine and a list of groups from Kafka, a collection returns without an error,
  -- and it has stored a status for a group of the list whose offsets Kafka gave.
  pub collect_metrics_stores :
      (c : Collector F H) (g : Str) {groups : List Str} {offsets : List TopicPartitionOffset}
      → round.list_consumer_groups ≡ ok groups
      → 1 ≤ setup.config.max_concurrency
      → Listed g groups
      → round.get_consumer_group_offsets g ≡ ok offsets
      → (c' : Collector F H) × (s : GroupStatus F) × (collect_metrics setup cluster round c
          ≡ returned (none, c'))
        × (get_group_status g c' ≡ some s)
  unfolding collect_metrics get_group_status
  collect_metrics_stores c g {groups} {offsets} listed room l answer =
      let members = or_empty round.get_consumer_group_members in
      let start = counted setup cluster round members groups c in
      let collected = collect_groups setup cluster round members groups start in
      let (s, stored) =
        status_after-IsSome setup cluster round g collected.0 (lookup g collected.1.status_store)
          (inr (collect_groups-Sent setup cluster round members groups start g l answer)) in
      (
        collect_listed setup cluster round groups c,
        s,
        rw listed (ground arith),
        lookup-store_results setup cluster round g collected.0 collected.1 ∙ stored,
      )

  -- With room for a goroutine and a list of groups from Kafka, a group that is not in the list, or whose
  -- offsets Kafka did not give, keeps the status that it had, if any.
  pub collect_metrics_keeps_stale :
      (c : Collector F H) (g : Str) {groups : List Str}
      → round.list_consumer_groups ≡ ok groups
      → 1 ≤ setup.config.max_concurrency
      → (¬ Listed g groups) ⊎ ((e : Error) × (round.get_consumer_group_offsets g ≡ err e))
      → (c' : Collector F H) × (collect_metrics setup cluster round c ≡ returned (none, c'))
        × (get_group_status g c' ≡ get_group_status g c)
  unfolding collect_metrics get_group_status
  collect_metrics_keeps_stale c g {groups} listed room kept =
      let members = or_empty round.get_consumer_group_members in
      let start = counted setup cluster round members groups c in
      let collected = collect_groups setup cluster round members groups start in
      let store = collect_groups-status_store setup cluster round members groups start in
      (
        collect_listed setup cluster round groups c,
        rw listed (ground arith),
        lookup-store_results setup cluster round g collected.0 collected.1
            ∙ status_after_unsent setup cluster round g collected.0 _
                (collect_groups-unsent setup cluster round members groups start g kept)
            ∙ ap (lookup g) store,
      )

  -- The same of `collect_listed`, and that no status is lost.
  pub collect_listed-stores :
      (groups : List Str) (c : Collector F H) (g : Str)
      → IsSome (lookup g c.status_store)
        ⊎ (Listed g groups
            × ((offsets : List TopicPartitionOffset) × (round.get_consumer_group_offsets g
                  ≡ ok offsets)))
      → IsSome (lookup g (collect_listed setup cluster round groups c).status_store)
  unfolding collect_listed
  collect_listed-stores groups c g h =
      let members = or_empty round.get_consumer_group_members in
      let start = counted setup cluster round members groups c in
      let collected = collect_groups setup cluster round members groups start in
      let store = collect_groups-status_store setup cluster round members groups start in
      rw (lookup-store_results setup cluster round g collected.0 collected.1, store)
        (status_after-IsSome setup cluster round g collected.0 (lookup g c.status_store) (go h))
    where
      go :
          IsSome (lookup g c.status_store)
            ⊎ (Listed g groups
                × ((offsets : List TopicPartitionOffset) × (round.get_consumer_group_offsets g
                      ≡ ok offsets)))
          → IsSome (lookup g c.status_store)
            ⊎ Sent setup cluster round g
                (collect_groups setup cluster round
                  (or_empty round.get_consumer_group_members)
                  groups
                  (counted setup cluster round
                    (or_empty round.get_consumer_group_members)
                    groups
                    c)).0
      go (inl old) = inl old
      go (inr (l, (offsets, answer))) =
          inr (collect_groups-Sent setup cluster round _ groups _ g l answer)

  store_results-windows :
      (results : Results setup cluster round) (c : Collector F H)
      → (store_results setup cluster round results c).windows ≡ c.windows
  unfolding store_results store_result
  store_results-windows [] c = refl
  store_results-windows ((g, ok s) ∷ results) c = store_results-windows results _
  store_results-windows ((g, err e) ∷ results) c = store_results-windows results _

  -- The windows after a collection, as those that the collection of the groups leaves.
  pub collect_listed-windows {ℓ} :
      (P : Windows → Type ℓ) (groups : List Str) (c : Collector F H)
      → ((g : Str)
          → Listed g groups
          → (offsets : List TopicPartitionOffset) → round.get_consumer_group_offsets g ≡ ok offsets
          → Recorded setup cluster round (λ d. P d.windows) g)
      → P c.windows
      → P (collect_listed setup cluster round groups c).windows
  unfolding collect_listed
  collect_listed-windows P groups c keeps h =
      let members = or_empty round.get_consumer_group_members in
      rw
        (store_results-windows
          (collect_groups setup cluster round members groups
            (counted setup cluster round members groups c)).0
          _)
        (collect_groups-keeps setup cluster round (λ d. P d.windows) members groups _ keeps
          (λ g d k. k) h)
