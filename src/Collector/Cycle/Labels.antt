-- ===== src/Collector/Cycle/Labels.antt =====
-- Every write to a metric, over a run of the loop, has the labels that the metric declares.
use lag_radar.Base.{
  ◌≡◌, refl, inl, inr, List, [], ◌∷◌, ◌++◌, Option, none, some, Bool-cases, not, ◌&&◌, ◌==◌, length,
  All, All-append, ℕ, arith,
}
use mathlib.Core.Path.{subst}
use lag_radar.Base.Int.{pos, ltb_ℤ}
use lag_radar.Base.Text.{Str}
use lag_radar.Base.Float.{Float64}
use lag_radar.Base.Map.{Map}
use lag_radar.Base.Result.{Result, ok, err}
use lag_radar.Metrics.{Write, inc, scrape_errors, IsLabelled, label_names}
use lag_radar.Collector.Types.{PartitionConsumerStatus, GroupStatus}
use lag_radar.Collector.Window.{Windows}
use lag_radar.Collector.State.{Error, Round, Setup, Collector, new_with_client}
use lag_radar.Collector.Partition.{partition_writes, evaluate_record}
use lag_radar.Collector.Group.{group_writes}
use lag_radar.Collector.Cycle.{
  after_cleanup, collect_groups, store_result, store_results, collect_listed, members_writes,
  or_empty, counted, collect_answer, collect_metrics, Wake, tick, cleanup_tick, done, Loop, running,
  finished, stuck, panicked, after_collection, step, run_loop, start_periodic_collection,
}
use lag_radar.Collector.Cycle.Results.{collect_groups-keeps}

module _ {F : Type 0} ⦃f : Float64 F⦄ where
  abbrev AllLabelled : List (Write F) → Type 0
  AllLabelled = All IsLabelled

  partition_writes-AllLabelled :
      (s : PartitionConsumerStatus F) (cluster : Str) → AllLabelled (partition_writes s cluster)
  unfolding partition_writes label_names
  partition_writes-AllLabelled s cluster = ground arith

  group_writes-AllLabelled :
      (g : GroupStatus F) (cluster : Str) → AllLabelled (group_writes g cluster)
  unfolding group_writes label_names
  group_writes-AllLabelled g cluster = ground arith

module _ {F H : Type 0} ⦃f : Float64 F⦄ (setup : Setup F H) (cluster : Str) where
  abbrev pub Labelled : Collector F H → Type 0
  Labelled c = AllLabelled c.written

  members_writes-AllLabelled :
      (round : Round F) (members : Map ℕ) → AllLabelled (members_writes setup cluster round members)
  unfolding members_writes label_names
  members_writes-AllLabelled round [] = tt
  members_writes-AllLabelled round (m ∷ members) = (refl, members_writes-AllLabelled round members)

  store_results-Labelled :
      (round : Round F) (results : List (Str × Result Error (GroupStatus F))) (c : Collector F H)
      → Labelled c
      → Labelled (store_results setup cluster round results c)
  unfolding store_results store_result label_names
  store_results-Labelled round [] c h = h
  store_results-Labelled round ((g, ok s) ∷ results) c h =
      store_results-Labelled round results _
        (All-append IsLabelled c.written _ h (group_writes-AllLabelled s cluster))
  store_results-Labelled round ((g, err e) ∷ results) c h =
      store_results-Labelled round results _ (All-append IsLabelled c.written _ h (refl, tt))

  collect_listed-Labelled :
      (round : Round F) (groups : List Str) (c : Collector F H)
      → Labelled c
      → Labelled (collect_listed setup cluster round groups c)
  unfolding collect_listed evaluate_record label_names
  collect_listed-Labelled round groups c h =
      let members = or_empty round.get_consumer_group_members in
      let start = counted setup cluster round members groups c in
      let results = collect_groups setup cluster round members groups start in
      let stored = store_results setup cluster round results.0 results.1 in
      All-append IsLabelled stored.written _
        (store_results-Labelled round results.0 results.1 (
          collect_groups-keeps setup cluster round Labelled members groups start
            (λ g l offsets answer tpo r d k.
              All-append IsLabelled d.written _ k (partition_writes-AllLabelled _ cluster))
            (λ g d k. All-append IsLabelled d.written _ k (refl, tt))
            (All-append IsLabelled c.written _ h (refl, members_writes-AllLabelled round members))))
        (refl, tt)

  abbrev LoopLabelled : Loop F H → Type 0
  LoopLabelled (running c) = Labelled c
  LoopLabelled (finished c) = Labelled c
  LoopLabelled stuck = Unit
  LoopLabelled panicked = Unit

  collect_answer-Labelled :
      (round : Round F) (c : Collector F H) (answer : Result Error (List Str))
      → Labelled c
      → LoopLabelled (after_collection (collect_answer setup cluster round c answer))
  unfolding collect_answer label_names
  collect_answer-Labelled round c (err e) h =
      let counted_error = c.written ++ inc scrape_errors (cluster ∷ []) ∷ [] in
      All-append IsLabelled counted_error _ (All-append IsLabelled c.written _ h (refl, tt))
        (refl, tt)
  collect_answer-Labelled round c (ok groups) h =
      elim (Bool-cases (setup.config.max_concurrency == 0 && not (length groups == 0))) [
        | inl waits ↦ rw waits tt
        | inr goes ↦ rw goes (collect_listed-Labelled round groups c h)
      ]

  cleanup-Labelled :
      (c : Collector F H) (kept : Option Windows) → Labelled c → LoopLabelled (after_cleanup c kept)
  cleanup-Labelled c none h = tt
  cleanup-Labelled c (some kept) h = h

  step-Labelled :
      (w : Wake F) (loop : Loop F H) → LoopLabelled loop → LoopLabelled (step setup cluster w loop)
  unfolding step collect_metrics
  step-Labelled (tick round) (running c) h =
      collect_answer-Labelled round c round.list_consumer_groups h
  step-Labelled cleanup_tick (running c) h = cleanup-Labelled c _ h
  step-Labelled done (running c) h = h
  step-Labelled w (finished c) h = h
  step-Labelled w stuck h = h
  step-Labelled w panicked h = h

  run_loop-Labelled :
      (wakes : List (Wake F)) (loop : Loop F H)
      → LoopLabelled loop
      → LoopLabelled (run_loop setup cluster wakes loop)
  unfolding run_loop
  run_loop-Labelled [] loop h = h
  run_loop-Labelled (w ∷ wakes) loop h = run_loop-Labelled wakes _ (step-Labelled w loop h)

  -- In every state that the loop of a new collector reaches, whatever Kafka answers, each write to a
  -- metric has given as many label values as the metric declares label names.
  pub all_writes-Labelled :
      (h : H) (first : Round F) (wakes : List (Wake F)) (c : Collector F H)
      → start_periodic_collection setup cluster first wakes (new_with_client h) ≡ running c
      → Labelled c
  unfolding start_periodic_collection collect_metrics new_with_client
  all_writes-Labelled h first wakes c e =
      elim (Bool-cases (ltb_ℤ (pos 0) setup.config.check_interval)) [
        | inr refused ↦ absurd (let never : _ = rw refused at e in ground arith)
        | inl timed ↦ subst LoopLabelled (rw timed at e) (
            run_loop-Labelled wakes _ (
              collect_answer-Labelled first (new_with_client h) first.list_consumer_groups
                (tt {0})))
      ]
