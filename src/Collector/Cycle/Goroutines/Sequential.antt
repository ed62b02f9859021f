-- ===== src/Collector/Cycle/Goroutines/Sequential.antt =====
-- The goroutines one after the other, as the model of a collection runs them, and in any order.
use lag_radar.Base.{
  ℕ, ◌≡◌, refl, sym, ap, ◌∙◌, ◌≢◌, ◌⊎◌, inl, inr, false, List, [], ◌∷◌, Bool-cases, some, none,
  arith, eq-false_of_ne,
}
use lag_radar.Base.Int.{ℤ}
use lag_radar.Base.Word.{eqb_ℤ}
use lag_radar.Base.Text.{Str, str_eq, str_eq_iff}
use lag_radar.Base.Float.{Float64}
use lag_radar.Base.Map.{Map, Distinct, lookup, lookup-insert}
use lag_radar.Base.Result.{Result-cases}
use lag_radar.Collector.Types.{GroupStatus}
use lag_radar.Collector.Window.{window_key, add_to_window}
use lag_radar.Collector.State.{TopicPartitionOffset, Round, Setup, Collector}
use lag_radar.Collector.Partition.{evaluate_partition, evaluate_record, offset_record}
use lag_radar.Collector.Group.{collect_partitions, collect_group_metrics}
use lag_radar.Collector.Cycle.{or_zero, collect_groups}
use lag_radar.Collector.Cycle.Results.{Listed}
use lag_radar.Collector.Cycle.Goroutines.Alone.{
  IsTopicPartition, AreTopicPartitions, SameWindows, keys_apart, collect_partitions-SameWindows,
}
use lag_radar.Collector.Cycle.Goroutines.Interleaved.{KafkaNames, with_health}

-- Each text is once in a list.
abbrev pub Once : List Str → Type 0
Once [] = Unit
Once (g ∷ gs) = (¬ Listed g gs) × Once gs

or_absurd : {A B : Type 0} → (¬ A) → A ⊎ B → B
or_absurd refused (inl a) = absurd (refused a)
or_absurd refused (inr b) = b

module _ {F H : Type 0} ⦃f : Float64 F⦄ (setup : Setup F H) (cluster : Str) (round : Round F) where
  module _ (g h : Str) (apart : h ≢ g) where
    evaluate_record-apart :
        (tpo : TopicPartitionOffset) (high : ℤ) (c : Collector F H)
        → IsTopicPartition tpo
        → SameWindows g c
            (evaluate_record setup cluster round h tpo
              (offset_record tpo high (round.now h tpo))
              c).1
    unfolding evaluate_record add_to_window
    evaluate_record-apart tpo high c plain other p =
        let key = window_key h tpo.topic tpo.partition in
        let key' = window_key g other.topic other.partition in
        sym (lookup-insert key key' _ c.windows ∙ rw (keys_apart g h tpo other apart plain p) refl)

    collect_partitions-apart :
        (rest : List TopicPartitionOffset) (acc : GroupStatus F) (c : Collector F H)
        → AreTopicPartitions rest
        → SameWindows g c (collect_partitions setup cluster round h rest acc c).1
    unfolding collect_partitions evaluate_partition
    collect_partitions-apart [] acc c plain other p = refl
    collect_partitions-apart (tpo ∷ rest) acc c (plain, plains) other p =
        elim (Result-cases (round.get_high_watermark h tpo)) [
          | inr (e, missing) ↦
              rw (missing, collect_partitions) (collect_partitions-apart rest acc c plains other p)
          | inl (high, there) ↦ elim (Bool-cases (eqb_ℤ tpo.offset setup.offset_invalid)) [
            | inl invalid ↦
                rw (there, invalid, collect_partitions)
                  (collect_partitions-apart rest _ c plains other p)
            | inr committed ↦
                rw (there, committed, collect_partitions)
                  (evaluate_record-apart tpo high c plain other p
                    ∙ collect_partitions-apart rest _ _ plains other p)
          ]
        ]

    collect_group_metrics-apart :
        (members : ℕ) (c : Collector F H)
        → KafkaNames setup cluster round
        → SameWindows g c (collect_group_metrics setup cluster round h members c).1
    unfolding collect_group_metrics
    collect_group_metrics-apart members c names other p =
        elim (Result-cases (round.get_consumer_group_offsets h)) [
          | inr (e, missing) ↦ rw missing refl
          | inl (offsets, there) ↦
              rw there (collect_partitions-apart offsets _ c (names h offsets there) other p)
        ]

  pub collect_group_metrics-SameWindows :
      (g : Str) (members : ℕ) (c d : Collector F H)
      → KafkaNames setup cluster round
      → SameWindows g c d
      → (collect_group_metrics setup cluster round g members c).0
        ≡ (collect_group_metrics setup cluster round g members d).0
  unfolding collect_group_metrics
  collect_group_metrics-SameWindows g members c d names same =
      elim (Result-cases (round.get_consumer_group_offsets g)) [
        | inr (e, missing) ↦ rw missing refl
        | inl (offsets, there) ↦ rw there (
            ap (λ (acc : GroupStatus F). with_health setup cluster round acc)
              (collect_partitions-SameWindows setup cluster round g offsets _ c d
                (names g offsets there) same))
      ]

  pub lookup-collect_groups :
      (members : Map ℕ) (g : Str) (groups : List Str) (c : Collector F H)
      → KafkaNames setup cluster round
      → Listed g groups
      → lookup g (collect_groups setup cluster round members groups c).0
        ≡ some (collect_group_metrics setup cluster round g (or_zero (lookup g members)) c).0
  unfolding collect_groups lookup
  lookup-collect_groups members g [] c names listed = absurd listed
  lookup-collect_groups members g (h ∷ groups) c names listed = elim (Bool-cases (str_eq h g)) [
    | inl same ↦ rw same (
        ap
          (λ i. some (collect_group_metrics setup cluster round i (or_zero (lookup i members)) c).0)
          ((str_eq_iff h g).0 same))
    | inr other ↦
        let apart : h ≢ g = ground (arith, str_eq_iff h g) in
        rw other (
          lookup-collect_groups members g groups _ names (or_absurd apart listed)
          ∙ ap some (
              collect_group_metrics-SameWindows g (or_zero (lookup g members)) _ c names
                (λ tpo p. sym (collect_group_metrics-apart g h apart _ c names tpo p))))
  ]

  pub lookup-collect_groups-none :
      (members : Map ℕ) (g : Str) (groups : List Str) (c : Collector F H)
      → ¬ Listed g groups
      → lookup g (collect_groups setup cluster round members groups c).0 ≡ none
  unfolding collect_groups lookup
  lookup-collect_groups-none members g [] c unlisted = refl
  lookup-collect_groups-none members g (h ∷ groups) c unlisted =
      let other : str_eq h g ≡ false =
        eq-false_of_ne (str_eq h g) (λ e. unlisted (inl ((str_eq_iff h g).0 e))) in
      rw other (lookup-collect_groups-none members g groups _ (λ l. unlisted (inr l)))

  pub collect_groups-Distinct :
      (members : Map ℕ) (groups : List Str) (c : Collector F H)
      → Once groups
      → Distinct (collect_groups setup cluster round members groups c).0
  unfolding collect_groups
  collect_groups-Distinct members [] c once = tt
  collect_groups-Distinct members (h ∷ groups) c once = (
    lookup-collect_groups-none members h groups _ once.0,
    collect_groups-Distinct members groups _ once.1,
  )
