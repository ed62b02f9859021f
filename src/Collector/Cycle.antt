-- ===== src/Collector/Cycle.antt =====
-- internal/collector/collector.go: `CollectMetricsWithCluster`, and the loop of
-- `StartPeriodicCollection` with the queries on the stored statuses.
pub mod Results
pub mod Stored
pub mod Goroutines
pub mod Order
pub mod Store
pub mod Retention
pub mod Labels
use lag_radar.Base.{
  ℕ, Bool, true, ◌&&◌, not, List, [], ◌∷◌, ◌++◌, map, Option, none, some, length, ◌==◌,
  if◌then◌else◌,
}
use lag_radar.Base.Int.{pos, ltb_ℤ}
use lag_radar.Base.Text.{Str}
use lag_radar.Base.Float.{Float64}
use lag_radar.Base.Map.{Map, lookup, insert}
use lag_radar.Base.Result.{Result, ok, err}
use lag_radar.Metrics.{
  Write, set, inc, observe, scrape_errors, scrape_duration, active_consumer_groups,
  consumer_group_members, collection_duration,
}
use lag_radar.Collector.Types.{GroupStatus}
use lag_radar.Collector.Window.{cleanup_old_windows, Windows}
use lag_radar.Collector.State.{Error, list_groups_failed, Round, Setup, Collector}
use lag_radar.Collector.Group.{group_writes, collect_group_metrics}

-- A missing key of a `map[string]int` is 0.
abbrev pub or_zero : Option ℕ → ℕ
or_zero none = 0
or_zero (some n) = n

-- A failure to describe the groups is logged, and the counts are empty.
abbrev pub or_empty : Result Error (Map ℕ) → Map ℕ
or_empty (ok m) = m
or_empty (err e) = []

-- What becomes of a call that may wait for ever.
pub data Outcome (A : Type 0) : Type 0 where
  returned : A → Outcome A
  blocked : Outcome A

module _ {F H : Type 0} where
  abbrev pub emit : List (Write F) → Collector F H → Collector F H
  emit ws c = record c { written = c.written ++ ws }

  -- `GetGroupStatus`, and the `activeGroups` that the cleanup makes of `GetAllGroupStatuses`.
  unfoldable pub get_group_status : Str → Collector F H → Option (GroupStatus F)
  get_group_status group_id c = lookup group_id c.status_store

  unfoldable pub get_all_group_statuses : Collector F H → Map (GroupStatus F)
  get_all_group_statuses c = c.status_store

  unfoldable pub is_ready : Collector F H → Bool
  is_ready c = c.has_collected

module _ {F H : Type 0} ⦃f : Float64 F⦄ (setup : Setup F H) (cluster : Str) (round : Round F) where
  unfoldable pub members_writes : Map ℕ → List (Write F)
  members_writes = map (λ e. set consumer_group_members (cluster ∷ e.0 ∷ []) (f.of_int (pos e.1)))

  -- The goroutine of a group: it collects, and sends its result.
  collect_one : Map ℕ → Str → Collector F H → (Str × Result Error (GroupStatus F)) × Collector F H
  collect_one members group_id c =
      let (answer, c') =
        collect_group_metrics setup cluster round group_id (or_zero (lookup group_id members)) c in
      (
        (group_id, answer),
        emit
            (observe collection_duration (cluster ∷ group_id ∷ []) (round.group_seconds group_id)
              ∷ [])
            c',
      )

  unfoldable pub collect_groups :
      Map ℕ → List Str → Collector F H → List (Str × Result Error (GroupStatus F)) × Collector F H
  unfolding collect_one
  collect_groups members [] c = ([], c)
  collect_groups members (group_id ∷ groups) c =
      let (result, c') = collect_one members group_id c in
      let (results, c'') = collect_groups members groups c' in (result ∷ results, c'')

  unfoldable pub store_result : Str → Result Error (GroupStatus F) → Collector F H → Collector F H
  store_result group_id (err e) c = emit (inc scrape_errors (cluster ∷ []) ∷ []) c
  store_result group_id (ok g) c =
      emit (group_writes g cluster)
        (record c { status_store = insert group_id g c.status_store; has_collected = true })

  -- `for result := range results`
  unfoldable pub store_results :
      List (Str × Result Error (GroupStatus F)) → Collector F H → Collector F H
  store_results [] c = c
  store_results ((group_id, answer) ∷ results) c =
      store_results results (store_result group_id answer c)

  -- The deferred write of the scrape duration.
  abbrev pub finish : Collector F H → Collector F H
  finish = emit (set scrape_duration (cluster ∷ []) round.scrape_seconds ∷ [])

  -- The writes before the groups are collected.
  abbrev pub counted : Map ℕ → List Str → Collector F H → Collector F H
  counted members groups = emit (
      set active_consumer_groups (cluster ∷ []) (f.of_int (pos (length groups)))
      ∷ members_writes members)

  unfoldable pub collect_listed : List Str → Collector F H → Collector F H
  unfolding members_writes
  collect_listed groups c =
      let members = or_empty round.get_consumer_group_members in
      let (results, collected) = collect_groups members groups (counted members groups c) in
      finish (store_results results collected)

  -- With no room in `sem` the first send waits for ever: Goroutines.Semaphore has the turns of the channel.
  unfoldable pub collect_answer :
      Collector F H → Result Error (List Str) → Outcome (Option Error × Collector F H)
  unfolding collect_listed
  collect_answer c (err e) =
      returned (
        some (list_groups_failed cluster e),
        finish (emit (inc scrape_errors (cluster ∷ []) ∷ []) c),
      )
  collect_answer c (ok groups) =
      if setup.config.max_concurrency == 0 && not (length groups == 0)
      then blocked
      else returned (none, collect_listed groups c)

  -- `CollectMetricsWithCluster`. The goroutines of the groups run here one after the other, in the order
  -- of the groups, and their results are read in that order.
  unfoldable pub collect_metrics : Collector F H → Outcome (Option Error × Collector F H)
  unfolding collect_answer
  collect_metrics c = collect_answer c round.list_consumer_groups

-- What wakes the loop of `StartPeriodicCollection`.
pub data Wake (F : Type 0) : Type 0 where
  tick : Round F → Wake F
  cleanup_tick : Wake F
  done : Wake F

-- The loop runs on, has returned, waits for ever in a collection, or has panicked.
pub data Loop (F H : Type 0) : Type 0 where
  running : Collector F H → Loop F H
  finished : Collector F H → Loop F H
  stuck : Loop F H
  panicked : Loop F H

module _ {F H : Type 0} where
  abbrev pub after_collection : Outcome (Option Error × Collector F H) → Loop F H
  after_collection (returned (e, c)) = running c
  after_collection blocked = stuck

  abbrev pub after_cleanup : Collector F H → Option Windows → Loop F H
  after_cleanup c none = panicked
  after_cleanup c (some kept) = running (record c { windows = kept })

  abbrev pub active_groups : Collector F H → Map Bool
  active_groups c = map (λ e. (e.0, true)) c.status_store

module _ {F H : Type 0} ⦃f : Float64 F⦄ (setup : Setup F H) (cluster : Str) where
  wake : Wake F → Collector F H → Loop F H
  wake (tick round) c = after_collection (collect_metrics setup cluster round c)
  wake cleanup_tick c = after_cleanup c (cleanup_old_windows (active_groups c) c.windows)
  wake done c = finished c

  unfoldable pub step : Wake F → Loop F H → Loop F H
  unfolding wake
  step w (running c) = wake w c
  step w loop = loop

  unfoldable pub run_loop : List (Wake F) → Loop F H → Loop F H
  unfolding step
  run_loop [] loop = loop
  run_loop (w ∷ wakes) loop = run_loop wakes (step w loop)

  -- `StartPeriodicCollection`: `time.NewTicker`, which panics for an interval that is not above 0, a
  -- first collection, and then the loop.
  unfoldable pub start_periodic_collection : Round F → List (Wake F) → Collector F H → Loop F H
  unfolding run_loop
  start_periodic_collection first wakes c =
      if ltb_ℤ (pos 0) setup.config.check_interval
      then run_loop wakes (after_collection (collect_metrics setup cluster first c))
      else panicked
