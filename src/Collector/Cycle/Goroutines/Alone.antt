-- ===== src/Collector/Cycle/Goroutines/Alone.antt =====
-- What a goroutine finds depends only on the windows of its own group.
use lag_radar.Base.{
  ◌≡◌, refl, sym, ap, ◌∙◌, ◌≢◌, inl, inr, false, List, [], ◌∷◌, All, Bool-cases, eq-false_of_ne,
}
use lag_radar.Base.Int.{ℤ}
use lag_radar.Base.Word.{eqb_ℤ}
use lag_radar.Base.Text.{Str, NoColon, IsInt32, str_eq, str_eq_iff}
use lag_radar.Base.Float.{Float64}
use lag_radar.Base.Map.{lookup, lookup-insert}
use lag_radar.Base.Result.{Result-cases}
use lag_radar.Collector.Types.{GroupStatus}
use lag_radar.Collector.Evaluator.{evaluate_partition_consumer}
use lag_radar.Collector.Window.{window_key, add_to_window, get_window_records, records_of}
use lag_radar.Collector.Window.Keys.{window_key-injective}
use lag_radar.Collector.State.{TopicPartitionOffset, Round, Setup, Collector}
use lag_radar.Collector.Partition.{evaluate_partition, evaluate_record, offset_record}
use lag_radar.Collector.Group.{add_partition, collect_partitions}
use lag_radar.Collector.Cycle.Goroutines.{
  Thread, next_is, has_added, status_now, recorded, Move, failed, has_none, adds, evaluates,
}

-- A topic of Kafka has no colon, and a partition is an int32.
abbrev pub IsTopicPartition : TopicPartitionOffset → Type 0
IsTopicPartition tpo = NoColon tpo.topic × IsInt32 tpo.partition

abbrev pub AreTopicPartitions : List TopicPartitionOffset → Type 0
AreTopicPartitions = All IsTopicPartition

-- The keys of two groups are different.
pub keys_apart :
    (g h : Str) (tpo other : TopicPartitionOffset)
    → h ≢ g
    → IsTopicPartition tpo
    → IsTopicPartition other
    → str_eq (window_key h tpo.topic tpo.partition) (window_key g other.topic other.partition)
      ≡ false
keys_apart g h tpo other apart plain p =
    let key = window_key h tpo.topic tpo.partition in
    let key' = window_key g other.topic other.partition in
    eq-false_of_ne (str_eq key key') (λ e.
      apart
        (window_key-injective h g tpo.topic other.topic tpo.partition other.partition plain.0 p.0
          plain.1 p.1 ((str_eq_iff key key').0 e)).0)

-- Two collectors have the same windows of a group.
abbrev pub SameWindows : {F H : Type 0} → Str → Collector F H → Collector F H → Type 0
SameWindows g c d =
    (tpo : TopicPartitionOffset)
    → IsTopicPartition tpo
    → lookup (window_key g tpo.topic tpo.partition) c.windows
      ≡ lookup (window_key g tpo.topic tpo.partition) d.windows

module _ {F H : Type 0} ⦃f : Float64 F⦄ (setup : Setup F H) (cluster : Str) (round : Round F)
    (g : Str) where
  recorded-SameWindows :
      (tpo : TopicPartitionOffset) (high : ℤ) (c d : Collector F H)
      → IsTopicPartition tpo
      → SameWindows g c d
      → SameWindows g
          (recorded setup cluster round g tpo high c)
          (recorded setup cluster round g tpo high d)
  unfolding add_to_window
  recorded-SameWindows tpo high c d plain same other plain_other =
      let key = window_key g tpo.topic tpo.partition in
      let key' = window_key g other.topic other.partition in
      rw
        (
          lookup-insert key key' _ c.windows,
          lookup-insert key key' _ d.windows,
          same tpo plain,
          same other plain_other,
        )
        refl

  -- The status of the group when the goroutine goes on alone.
  unfoldable pub alone : Thread F → Collector F H → GroupStatus F
  alone (next_is rest acc) c = (collect_partitions setup cluster round g rest acc c).0
  alone (has_added tpo rest acc) c =
      (collect_partitions setup cluster round g rest
        (add_partition (status_now setup cluster round g tpo c) acc) c).0

  evaluate_record-SameWindows :
      (tpo : TopicPartitionOffset) (high : ℤ) (c d : Collector F H)
      → IsTopicPartition tpo
      → SameWindows g c d
      → let r = offset_record tpo high (round.now g tpo) in
        ((evaluate_record setup cluster round g tpo r c).0
          ≡ (evaluate_record setup cluster round g tpo r d).0)
        × SameWindows g
            (evaluate_record setup cluster round g tpo r c).1
            (evaluate_record setup cluster round g tpo r d).1
  unfolding evaluate_record get_window_records
  evaluate_record-SameWindows tpo high c d plain same =
      let later = recorded-SameWindows tpo high c d plain same in
      (
        ap (λ w. evaluate_partition_consumer setup.config (records_of w) g tpo.topic tpo.partition)
            (later tpo plain),
        later,
      )

  -- The statuses of the partitions that are left depend only on the windows of the group.
  pub collect_partitions-SameWindows :
      (rest : List TopicPartitionOffset) (acc : GroupStatus F) (c d : Collector F H)
      → AreTopicPartitions rest
      → SameWindows g c d
      → (collect_partitions setup cluster round g rest acc c).0
        ≡ (collect_partitions setup cluster round g rest acc d).0
  unfolding collect_partitions evaluate_partition
  collect_partitions-SameWindows [] acc c d plain same = refl
  collect_partitions-SameWindows (tpo ∷ rest) acc c d (plain, plains) same =
      elim (Result-cases (round.get_high_watermark g tpo)) [
        | inr (e, missing) ↦
            rw (missing, collect_partitions)
              (collect_partitions-SameWindows rest acc c d plains same)
        | inl (high, there) ↦ elim (Bool-cases (eqb_ℤ tpo.offset setup.offset_invalid)) [
          | inl invalid ↦
              rw (there, invalid, collect_partitions)
                (collect_partitions-SameWindows rest _ c d plains same)
          | inr committed ↦
              let (status, windows) = evaluate_record-SameWindows tpo high c d plain same in
              rw (there, committed, collect_partitions)
                (ap
                    (λ s.
                      (collect_partitions setup cluster round g rest (add_partition s acc)
                        (evaluate_record setup cluster round g tpo
                          (offset_record tpo high (round.now g tpo)) c).1).0)
                    status
                  ∙ collect_partitions-SameWindows rest _ _ _ plains windows)
        ]
      ]

  abbrev pub IsPlain : Thread F → Type 0
  IsPlain (next_is rest acc) = AreTopicPartitions rest
  IsPlain (has_added tpo rest acc) = IsTopicPartition tpo × AreTopicPartitions rest

  pub alone-SameWindows :
      (t : Thread F) (c d : Collector F H) → IsPlain t → SameWindows g c d → alone t c ≡ alone t d
  unfolding alone get_window_records
  alone-SameWindows (next_is rest acc) c d plain same =
      collect_partitions-SameWindows rest acc c d plain same
  alone-SameWindows (has_added tpo rest acc) c d (plain, plains) same =
      ap
        (λ w.
          (collect_partitions setup cluster round g rest
            (add_partition
              (evaluate_partition_consumer setup.config (records_of w) g tpo.topic tpo.partition)
              acc)
            c).0)
        (same tpo plain)
      ∙ collect_partitions-SameWindows rest _ c d plains same

  pub Move-IsPlain :
      {c next : Collector F H} {t u : Thread F}
      → Move setup cluster round g c t u next
      → IsPlain t
      → IsPlain u
  Move-IsPlain (failed e) plain = plain.1
  Move-IsPlain (has_none e invalid) plain = plain.1
  Move-IsPlain (adds e committed) plain = plain
  Move-IsPlain evaluates plain = plain.1

  -- A step of the goroutine leaves the status that it has when it goes on alone.
  pub alone-Move :
      {c next : Collector F H} {t u : Thread F}
      → Move setup cluster round g c t u next
      → IsPlain t
      → alone u next ≡ alone t c
  unfolding alone collect_partitions evaluate_partition evaluate_record
  alone-Move (failed missing) plain = rw (alone, collect_partitions, missing) refl
  alone-Move (has_none there invalid) plain = rw (alone, collect_partitions, there, invalid) refl
  alone-Move {c} (adds {tpo} {rest} {acc} {high} there committed) (plain, plains) =
      rw (alone, collect_partitions, there, committed)
        (collect_partitions-SameWindows rest _ _ _ plains (λ other p. refl))
  alone-Move {c} (evaluates {tpo} {rest} {acc}) (plain, plains) =
      collect_partitions-SameWindows rest _ _ _ plains (λ other p. refl)

  -- A step of another goroutine leaves the windows of the group.
  pub SameWindows-Move :
      (h : Str) {c next : Collector F H} {t u : Thread F}
      → h ≢ g
      → Move setup cluster round h c t u next
      → IsPlain t
      → SameWindows g c next
  unfolding add_to_window
  SameWindows-Move h apart (failed missing) plain tpo p = refl
  SameWindows-Move h apart (has_none there invalid) plain tpo p = refl
  SameWindows-Move h apart evaluates plain tpo p = refl
  SameWindows-Move h {c} apart (adds {tpo = added} there committed) (plain, plains) tpo p =
      let key = window_key h added.topic added.partition in
      let key' = window_key g tpo.topic tpo.partition in
      sym (lookup-insert key key' _ c.windows ∙ rw (keys_apart g h added tpo apart plain p) refl)
