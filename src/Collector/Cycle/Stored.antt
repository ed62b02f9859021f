-- ===== src/Collector/Cycle/Stored.antt =====
-- What the loop keeps of the stored statuses: a group has one, and the readiness tells whether there
-- are any.
use lag_radar.Base.{
  ◌≡◌, refl, sym, inl, inr, true, List, [], ◌∷◌, Option, none, some, Bool-cases, not, ◌&&◌, ◌==◌,
  length, ltb, arith,
}
use mathlib.Core.Path.{subst}
use lag_radar.Base.Text.{Str}
use lag_radar.Base.Float.{Float64}
use lag_radar.Base.Map.{Map, Distinct, insert, insert-Distinct}
use lag_radar.Base.Result.{Result, ok, err}
use lag_radar.Collector.Types.{GroupStatus}
use lag_radar.Collector.Window.{Windows}
use lag_radar.Collector.State.{Error, Round, Setup, Collector, new_with_client}
use lag_radar.Collector.Partition.{evaluate_record}
use lag_radar.Collector.Cycle.{
  after_cleanup, collect_groups, store_result, store_results, collect_listed, or_empty, counted,
  collect_answer, collect_metrics, Wake, tick, cleanup_tick, done, Loop, running, finished, stuck,
  panicked, after_collection, step,
}
use lag_radar.Collector.Cycle.Results.{collect_groups-keeps}

-- The stored statuses have each group once, and the collector has collected exactly if there are any.
abbrev pub IsCoherent : {F H : Type 0} → Collector F H → Type 0
IsCoherent c = Distinct c.status_store × (c.has_collected ≡ ltb 0 (length c.status_store))

length-insert : {V : Type 0} (k : Str) (v : V) (m : Map V) → ltb 0 (length (insert k v m)) ≡ true
unfolding insert
length-insert k v [] = refl
length-insert k v ((j, w) ∷ m) = ground arith

pub new_with_client-IsCoherent :
    (F : Type 0) {H : Type 0} (h : H) → IsCoherent (new_with_client {F = F} h)
unfolding new_with_client
new_with_client-IsCoherent F h = (tt, refl)

module _ {F H : Type 0} ⦃f : Float64 F⦄ (setup : Setup F H) (cluster : Str) where
  store_results-IsCoherent :
      (round : Round F) (results : List (Str × Result Error (GroupStatus F))) (c : Collector F H)
      → IsCoherent c
      → IsCoherent (store_results setup cluster round results c)
  unfolding store_results store_result
  store_results-IsCoherent round [] c h = h
  store_results-IsCoherent round ((g, ok s) ∷ results) c (d, e) =
      store_results-IsCoherent round results _
        (insert-Distinct g s c.status_store d, sym (length-insert g s c.status_store))
  store_results-IsCoherent round ((g, err e) ∷ results) c h =
      store_results-IsCoherent round results _ h

  collect_listed-IsCoherent :
      (round : Round F) (groups : List Str) (c : Collector F H)
      → IsCoherent c
      → IsCoherent (collect_listed setup cluster round groups c)
  unfolding collect_listed evaluate_record
  collect_listed-IsCoherent round groups c h =
      let members = or_empty round.get_consumer_group_members in
      let start = counted setup cluster round members groups c in
      let results = collect_groups setup cluster round members groups start in
      store_results-IsCoherent round results.0 results.1 (
        collect_groups-keeps setup cluster round IsCoherent members groups start
          (λ g l offsets answer tpo r d k. k) (λ g d k. k) h)

  -- Where the loop has a collector.
  abbrev LoopIsCoherent : Loop F H → Type 0
  LoopIsCoherent (running c) = IsCoherent c
  LoopIsCoherent (finished c) = IsCoherent c
  LoopIsCoherent stuck = Unit
  LoopIsCoherent panicked = Unit

  collect_answer-IsCoherent :
      (round : Round F) (c : Collector F H) (answer : Result Error (List Str))
      → IsCoherent c
      → LoopIsCoherent (after_collection (collect_answer setup cluster round c answer))
  unfolding collect_answer
  collect_answer-IsCoherent round c (err e) h = h
  collect_answer-IsCoherent round c (ok groups) h =
      elim (Bool-cases (setup.config.max_concurrency == 0 && not (length groups == 0))) [
        | inl waits ↦ rw waits tt
        | inr goes ↦ rw goes (collect_listed-IsCoherent round groups c h)
      ]

  cleanup-IsCoherent :
      (c : Collector F H) (kept : Option Windows)
      → IsCoherent c
      → LoopIsCoherent (after_cleanup c kept)
  cleanup-IsCoherent c none h = tt
  cleanup-IsCoherent c (some kept) h = h

  step-IsCoherent :
      (w : Wake F) (loop : Loop F H)
      → LoopIsCoherent loop
      → LoopIsCoherent (step setup cluster w loop)
  unfolding step collect_metrics
  step-IsCoherent (tick round) (running c) h =
      collect_answer-IsCoherent round c round.list_consumer_groups h
  step-IsCoherent cleanup_tick (running c) h = cleanup-IsCoherent c _ h
  step-IsCoherent done (running c) h = h
  step-IsCoherent w (finished c) h = h
  step-IsCoherent w stuck h = h
  step-IsCoherent w panicked h = h

  pub running-IsCoherent :
      (w : Wake F) (c d : Collector F H)
      → step setup cluster w (running c) ≡ running d
      → IsCoherent c
      → IsCoherent d
  running-IsCoherent w c d ran h = subst LoopIsCoherent ran (step-IsCoherent w (running c) h)
