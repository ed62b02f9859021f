-- ===== src/Collector/Cycle/Results.antt =====
-- The loops over the groups and over their results: what becomes of the status store.
use lag_radar.Base.{
  IsSome, ℕ, ◌≡◌, refl, ap, ◌∙◌, ◌⊎◌, inl, inr, eq-false_of_ne, List, [], ◌∷◌, Option, some,
  if◌then◌else◌, Bool-cases,
}
use lag_radar.Base.Text.{Str, str_eq, str_eq_iff}
use lag_radar.Base.Float.{Float64}
use lag_radar.Base.Map.{Map, lookup, lookup-insert}
use lag_radar.Base.Result.{Result, ok, err}
use lag_radar.Metrics.{observe, collection_duration}
use lag_radar.Collector.Types.{GroupStatus}
use lag_radar.Collector.State.{TopicPartitionOffset, Error, Round, Setup, Collector}
use lag_radar.Collector.Partition.{evaluate_record}
use lag_radar.Collector.Group.Summary.{collect_group_summary, collect_group_metrics_failed}
use lag_radar.Collector.Group.Keeps.{Recorded, collect_group_metrics-keeps}
use lag_radar.Collector.Cycle.{or_zero, emit, collect_groups, store_result, store_results}

-- A text is in a list.
abbrev pub Listed : Str → List Str → Type 0
Listed g [] = ⊥
Listed g (h ∷ hs) = (h ≡ g) ⊎ Listed g hs

module _ {F H : Type 0} ⦃f : Float64 F⦄ (setup : Setup F H) (cluster : Str) (round : Round F) where
  -- What the evaluations and the writes keep, the collection of all the groups keeps.
  pub collect_groups-keeps {ℓ} :
      (P : Collector F H → Type ℓ) (members : Map ℕ) (groups : List Str) (c : Collector F H)
      → ((g : Str)
          → Listed g groups
          → (offsets : List TopicPartitionOffset) → round.get_consumer_group_offsets g ≡ ok offsets
          → Recorded setup cluster round P g)
      → ((g : Str) (c : Collector F H)
          → P c
          → P (
              emit (observe collection_duration (cluster ∷ g ∷ []) (round.group_seconds g) ∷ []) c))
      → P c
      → P (collect_groups setup cluster round members groups c).1
  unfolding collect_groups
  collect_groups-keeps P members [] c keeps emits h = h
  collect_groups-keeps P members (g ∷ groups) c keeps emits h =
      collect_groups-keeps P members groups _ (λ j l. keeps j (inr l)) emits
        (emits g _ (
          collect_group_metrics-keeps setup cluster round P g (keeps g (inl refl))
            (or_zero (lookup g members)) c h))

  abbrev pub Results : Type 0
  Results = List (Str × Result Error (GroupStatus F))

  -- The status of a group after some results, from the one before them.
  unfoldable pub status_after : Str → Results → Option (GroupStatus F) → Option (GroupStatus F)
  status_after g [] before = before
  status_after g ((h, ok s) ∷ results) before =
      status_after g results (if str_eq h g then some s else before)
  status_after g ((h, err e) ∷ results) before = status_after g results before

  pub lookup-store_results :
      (g : Str) (results : Results) (c : Collector F H)
      → lookup g (store_results setup cluster round results c).status_store
        ≡ status_after g results (lookup g c.status_store)
  unfolding store_results store_result status_after
  lookup-store_results g [] c = refl
  lookup-store_results g ((h, ok s) ∷ results) c =
      lookup-store_results g results _
      ∙ ap (status_after g results) (lookup-insert h g s c.status_store)
  lookup-store_results g ((h, err e) ∷ results) c = lookup-store_results g results _

  abbrev IsOk : Result Error (GroupStatus F) → Type 0
  IsOk (ok s) = Unit
  IsOk (err e) = ⊥

  -- A status for the group is among the results.
  pub Sent : Str → Results → Type 0
  Sent g [] = ⊥
  Sent g ((h, answer) ∷ results) = ((h ≡ g) × IsOk answer) ⊎ Sent g results

  pub status_after-IsSome :
      (g : Str) (results : Results) (before : Option (GroupStatus F))
      → IsSome before ⊎ Sent g results
      → IsSome (status_after g results before)
  unfolding status_after Sent
  status_after-IsSome g [] before (inl h) = h
  status_after-IsSome g [] before (inr h) = absurd h
  status_after-IsSome g ((h, err e) ∷ results) before (inl old) =
      status_after-IsSome g results before (inl old)
  status_after-IsSome g ((h, err e) ∷ results) before (inr (inl now)) = absurd now.1
  status_after-IsSome g ((h, err e) ∷ results) before (inr (inr later)) =
      status_after-IsSome g results before (inr later)
  status_after-IsSome g ((h, ok s) ∷ results) before p =
      status_after-IsSome g results (if str_eq h g then some s else before) (go p)
    where
      go :
          IsSome before ⊎ (((h ≡ g) × IsOk (ok s)) ⊎ Sent g results)
          → IsSome (if str_eq h g then some s else before) ⊎ Sent g results
      go (inl old) = elim (Bool-cases (str_eq h g)) [
        | inl same ↦ inl (s, rw same)
        | inr other ↦ inl (rw other old)
      ]
      go (inr (inl e)) = inl (s, rw ((str_eq_iff h g).1 e.0))
      go (inr (inr later)) = inr later

  pub status_after_unsent :
      (g : Str) (results : Results) (before : Option (GroupStatus F))
      → ¬ Sent g results
      → status_after g results before ≡ before
  unfolding status_after Sent
  status_after_unsent g [] before h = refl
  status_after_unsent g ((j, err e) ∷ results) before h =
      status_after_unsent g results before (λ later. h (inr later))
  status_after_unsent g ((j, ok s) ∷ results) before h =
      rw (eq-false_of_ne (str_eq j g) (λ e. h (inl ((str_eq_iff j g).0 e, tt))))
        (status_after_unsent g results before (λ later. h (inr later)))

  pub collect_groups-Sent :
      (members : Map ℕ) (groups : List Str) (c : Collector F H) (g : Str)
      {offsets : List TopicPartitionOffset}
      → Listed g groups
      → round.get_consumer_group_offsets g ≡ ok offsets
      → Sent g (collect_groups setup cluster round members groups c).0
  unfolding collect_groups Sent
  collect_groups-Sent members [] c g l answer = absurd l
  collect_groups-Sent members (h ∷ groups) c g {offsets} (inl e) answer =
      let offered : round.get_consumer_group_offsets h ≡ ok offsets = rw e answer in
      let summary =
        collect_group_summary setup cluster round h (or_zero (lookup h members)) c offered in
      inl (e, rw summary.1 tt)
  collect_groups-Sent members (h ∷ groups) c g (inr l) answer =
      inr (collect_groups-Sent members groups _ g l answer)

  pub collect_groups-unsent :
      (members : Map ℕ) (groups : List Str) (c : Collector F H) (g : Str)
      → (¬ Listed g groups) ⊎ ((e : Error) × (round.get_consumer_group_offsets g ≡ err e))
      → Sent g (collect_groups setup cluster round members groups c).0
      → ⊥
  unfolding collect_groups Sent
  collect_groups-unsent members [] c g h sent = sent
  collect_groups-unsent members (j ∷ groups) c g h (inl (e, sent)) = refuse h
    where
      refuse :
          (¬ Listed g (j ∷ groups)) ⊎ ((x : Error) × (round.get_consumer_group_offsets g ≡ err x))
          → ⊥
      refuse (inl unlisted) = unlisted (inl e)
      refuse (inr (x, failed)) =
          let failed_here : round.get_consumer_group_offsets j ≡ err x = rw e failed in
          rw
            (collect_group_metrics_failed setup cluster round j (or_zero (lookup j members)) c
              failed_here)
            at sent
  collect_groups-unsent members (j ∷ groups) c g h (inr sent) =
      collect_groups-unsent members groups _ g (later h) sent
    where
      later :
          (¬ Listed g (j ∷ groups)) ⊎ ((x : Error) × (round.get_consumer_group_offsets g ≡ err x))
          → (¬ Listed g groups) ⊎ ((x : Error) × (round.get_consumer_group_offsets g ≡ err x))
      later (inl unlisted) = inl (λ l. unlisted (inr l))
      later (inr failed) = inr failed

  pub collect_groups-status_store :
      (members : Map ℕ) (groups : List Str) (c : Collector F H)
      → (collect_groups setup cluster round members groups c).1.status_store ≡ c.status_store
  unfolding evaluate_record
  collect_groups-status_store members groups c =
      collect_groups-keeps (λ d. d.status_store ≡ c.status_store) members groups c
        (λ g l offsets answer tpo r d h. h) (λ g d h. h) refl
