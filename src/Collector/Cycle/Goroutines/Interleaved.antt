-- ===== src/Collector/Cycle/Goroutines/Interleaved.antt =====
-- What the goroutines send, whatever the order of their steps.
use lag_radar.Base.{
  ℕ, ◌≡◌, refl, sym, ap, ◌∙◌, ◌≢◌, inl, inr, List, [], ◌∷◌, Bool-cases, arith, length,
}
use mathlib.Core.Path.{subst}
use lag_radar.Base.Text.{Str, str_eq, str_eq_iff}
use lag_radar.Base.Float.{Float64}
use lag_radar.Base.Map.{Map, lookup}
use lag_radar.Base.Result.{Result, ok, Result-cases}
use lag_radar.Collector.Types.{GroupStatus}
use lag_radar.Collector.State.{TopicPartitionOffset, Error, Round, Setup, Collector}
use lag_radar.Collector.Group.{new_group, overall_health, collect_partitions, collect_group_metrics}
use lag_radar.Collector.Cycle.{or_zero}
use lag_radar.Collector.Cycle.Goroutines.{
  Thread, next_is, has_added, Threads, Move, failed, has_none, adds, evaluates, Runs, at_first,
  moves, begin, sent, so_far, IsFinished,
}
use lag_radar.Collector.Cycle.Goroutines.Alone.{
  AreTopicPartitions, IsPlain, alone, alone-SameWindows, Move-IsPlain, alone-Move, SameWindows-Move,
}

module _ {F H : Type 0} ⦃f : Float64 F⦄ (setup : Setup F H) (cluster : Str) (round : Round F) where
  -- Whatever steps are taken, each group has the status left that its goroutine has alone.
  alone-Runs :
      {c : Collector F H} {threads : Threads F} {last : Collector F H} {them : Threads F}
      → ((g : Str) → IsPlain setup cluster round g (threads g))
      → Runs setup cluster round c threads last them
      → (g : Str)
      → IsPlain setup cluster round g (them g)
        × (alone setup cluster round g (them g) last ≡ alone setup cluster round g (threads g) c)
  alone-Runs plain at_first g = (plain g, refl)
  alone-Runs {c} {threads = threads} plain (moves {next} {last} {them} h {t} before step) g =
      let here = alone-Runs plain before h in
      elim (Bool-cases (str_eq h g)) [
        | inl same ↦ rw same (
            subst
              (λ i.
                IsPlain setup cluster round i t
                × (alone setup cluster round i t last ≡ alone setup cluster round i (threads i) c))
              ((str_eq_iff h g).0 same)
              (
                Move-IsPlain setup cluster round h step here.0,
                alone-Move setup cluster round h step here.0 ∙ here.1,
              ))
        | inr other ↦
            let there = alone-Runs plain before g in
            let apart : h ≢ g = ground (arith, str_eq_iff h g) in
            let windows = SameWindows-Move setup cluster round g h apart step here.0 in
            rw other (
              there.0,
              sym (alone-SameWindows setup cluster round g (them g) next last there.0 windows)
                  ∙ there.1,
            )
      ]

  status_store-Move :
      (g : Str) {c next : Collector F H} {t u : Thread F}
      → Move setup cluster round g c t u next
      → next.status_store ≡ c.status_store
  status_store-Move g (failed e) = refl
  status_store-Move g (has_none e invalid) = refl
  status_store-Move g (adds e committed) = refl
  status_store-Move g evaluates = refl

  pub status_store-Runs :
      {c : Collector F H} {threads : Threads F} {last : Collector F H} {them : Threads F}
      → Runs setup cluster round c threads last them
      → last.status_store ≡ c.status_store
  status_store-Runs at_first = refl
  status_store-Runs (moves g before step) = status_store-Move g step ∙ status_store-Runs before

  -- Kafka names topics and partitions as it does.
  abbrev pub KafkaNames : Type 0
  KafkaNames =
      (g : Str) (offsets : List TopicPartitionOffset)
      → round.get_consumer_group_offsets g ≡ ok offsets
      → AreTopicPartitions offsets

  begin-IsPlain :
      (members : Map ℕ)
      → KafkaNames
      → (g : Str) → IsPlain setup cluster round g (begin setup cluster round members g)
  unfolding begin
  begin-IsPlain members names g = elim (Result-cases (round.get_consumer_group_offsets g)) [
    | inl (offsets, there) ↦ rw there (names g offsets there)
    | inr (e, missing) ↦ rw missing tt
  ]

  finished_alone :
      (g : Str) (t : Thread F) (c : Collector F H)
      → IsFinished setup cluster round t
      → alone setup cluster round g t c ≡ so_far setup cluster round t
  unfolding alone collect_partitions
  finished_alone g (next_is [] acc) c finished = refl
  finished_alone g (next_is (tpo ∷ rest) acc) c finished = absurd finished
  finished_alone g (has_added tpo rest acc) c finished = absurd finished

  abbrev pub with_health : GroupStatus F → Result Error (GroupStatus F)
  with_health acc = ok (record acc { overall_health = overall_health acc })

  -- Whatever the order of the steps of the goroutines, one that has finished sends what the collection
  -- of its group alone gives.
  pub sent-Runs :
      (members : Map ℕ) {c last : Collector F H} {them : Threads F} (g : Str)
      → KafkaNames
      → Runs setup cluster round c (begin setup cluster round members) last them
      → IsFinished setup cluster round (them g)
      → sent setup cluster round g (them g)
        ≡ (collect_group_metrics setup cluster round g (or_zero (lookup g members)) c).0
  unfolding sent begin alone collect_group_metrics
  sent-Runs members {c} {last} {them} g names ran finished =
      let (plain, same) = alone-Runs (begin-IsPlain members names) ran g in
      let total = sym (finished_alone g (them g) last finished) ∙ same in
      elim (Result-cases (round.get_consumer_group_offsets g)) [
        | inr (e, missing) ↦ rw missing refl
        | inl (offsets, there) ↦
            let result : so_far setup cluster round (them g)
                ≡ (collect_partitions setup cluster round g offsets
                    (new_group g (or_zero (lookup g members)) (round.group_now g) (length offsets))
                    c).0 =
              rw there at total in
            rw there (ap (λ (acc : GroupStatus F). with_health acc) result)
      ]
