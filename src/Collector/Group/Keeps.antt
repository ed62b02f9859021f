-- ===== src/Collector/Group/Keeps.antt =====
-- What every evaluation of a partition keeps, the collection of a group keeps.
use lag_radar.Base.{ℕ, ◌≡◌, inl, inr, List, [], ◌∷◌, Bool-cases}
use lag_radar.Base.Word.{eqb_ℤ}
use lag_radar.Base.Text.{Str}
use lag_radar.Base.Float.{Float64}
use lag_radar.Base.Result.{ok, Result-cases}
use lag_radar.Collector.Types.{OffsetRecord, GroupStatus}
use lag_radar.Collector.State.{TopicPartitionOffset, Round, Setup, Collector}
use lag_radar.Collector.Partition.{offset_record, evaluate_record, evaluate_partition}
use lag_radar.Collector.Group.{collect_partitions, collect_group_metrics, note_partition}

module _ {ℓ} {F H : Type 0} ⦃f : Float64 F⦄ (setup : Setup F H) (cluster : Str) (round : Round F)
    (P : Collector F H → Type ℓ) (group_id : Str) where
  -- Recording any offset for the group keeps `P`.
  abbrev pub Recorded : Type ℓ
  Recorded =
      (tpo : TopicPartitionOffset) (r : OffsetRecord) (c : Collector F H)
      → P c
      → P (evaluate_record setup cluster round group_id tpo r c).1

  evaluate_partition-keeps :
      Recorded
      → (tpo : TopicPartitionOffset) (c : Collector F H) → P c
      → P (evaluate_partition setup cluster round group_id tpo c).1
  unfolding evaluate_partition
  evaluate_partition-keeps keeps tpo c h =
      elim (Result-cases (round.get_high_watermark group_id tpo)) [
        | inl (high, answer) ↦ elim (Bool-cases (eqb_ℤ tpo.offset setup.offset_invalid)) [
          | inl invalid ↦ rw (answer, evaluate_partition, invalid) h
          | inr committed ↦
              rw (answer, evaluate_partition, committed)
                (keeps tpo (offset_record tpo high (round.now group_id tpo)) c h)
        ]
        | inr (e, failed) ↦ rw failed h
      ]

  collect_partitions-keeps :
      Recorded
      → (offsets : List TopicPartitionOffset) (g : GroupStatus F) (c : Collector F H) → P c
      → P (collect_partitions setup cluster round group_id offsets g c).1
  unfolding collect_partitions
  collect_partitions-keeps keeps [] g c h = h
  collect_partitions-keeps keeps (tpo ∷ offsets) g c h =
      let result = evaluate_partition setup cluster round group_id tpo c in
      collect_partitions-keeps keeps offsets (note_partition result.0 g) result.1
        (evaluate_partition-keeps keeps tpo c h)

  -- The premise is needed only where Kafka gives the offsets of the group.
  pub collect_group_metrics-keeps :
      ((offsets : List TopicPartitionOffset)
        → round.get_consumer_group_offsets group_id ≡ ok offsets
        → Recorded)
      → (members : ℕ) (c : Collector F H) → P c
      → P (collect_group_metrics setup cluster round group_id members c).1
  unfolding collect_group_metrics
  collect_group_metrics-keeps keeps members c h =
      elim (Result-cases (round.get_consumer_group_offsets group_id)) [
        | inl (offsets, answer) ↦
            rw answer (collect_partitions-keeps (keeps offsets answer) offsets _ c h)
        | inr (e, failed) ↦ rw failed h
      ]
