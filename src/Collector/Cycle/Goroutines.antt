-- ===== src/Collector/Cycle/Goroutines.antt =====
-- The goroutines of `CollectMetricsWithCluster`: the steps of each between its locks, in any order.
pub mod Alone
pub mod Interleaved
pub mod Sequential
pub mod Statuses
pub mod Fresh
pub mod Semaphore
use lag_radar.Base.{ℕ, ◌≡◌, ◌⊎◌, Bool, true, false, List, [], ◌∷◌, length, ◌++◌, if◌then◌else◌}
use lag_radar.Base.Int.{ℤ}
use lag_radar.Base.Word.{eqb_ℤ}
use lag_radar.Base.Text.{Str, str_eq}
use lag_radar.Base.Float.{Float64}
use lag_radar.Base.Result.{Result, ok, err}
use lag_radar.Base.Map.{Map, lookup}
use lag_radar.Collector.Cycle.{or_zero}
use lag_radar.Collector.Types.{OffsetRecord, PartitionConsumerStatus, GroupStatus}
use lag_radar.Collector.Evaluator.{evaluate_partition_consumer}
use lag_radar.Collector.Window.{window_key, add_to_window, get_window_records}
use lag_radar.Collector.State.{
  TopicPartitionOffset, Error, group_offsets_failed, Round, Setup, Collector,
}
use lag_radar.Collector.Partition.{
  offset_record, partition_writes, run_hook, evaluate_partition, uncommitted,
}
use lag_radar.Collector.Group.{add_partition, new_group, overall_health}

-- Where a goroutine is: before a partition, or after it has added the record of one to its window.
pub data Thread (F : Type 0) : Type 0 where
  next_is : List TopicPartitionOffset → GroupStatus F → Thread F
  has_added : TopicPartitionOffset → List TopicPartitionOffset → GroupStatus F → Thread F

module _ {F H : Type 0} ⦃f : Float64 F⦄ (setup : Setup F H) (cluster : Str) (round : Round F)
    (g : Str) where
  -- The status of a partition, as the evaluator gives it for the windows as they are.
  abbrev pub status_now : TopicPartitionOffset → Collector F H → PartitionConsumerStatus F
  status_now tpo c =
      evaluate_partition_consumer setup.config
        (get_window_records (window_key g tpo.topic tpo.partition) c.windows) g tpo.topic
        tpo.partition

  -- `addToWindow` of the record of a partition.
  abbrev pub recorded : TopicPartitionOffset → ℤ → Collector F H → Collector F H
  recorded tpo high_watermark c = record c {
    windows =
        add_to_window setup.config (window_key g tpo.topic tpo.partition)
          (offset_record tpo high_watermark (round.now g tpo)) c.windows;
  }

  -- The call of the hook and the writes to the metrics.
  abbrev pub reported : TopicPartitionOffset → Collector F H → Collector F H
  reported tpo c =
      let records = get_window_records (window_key g tpo.topic tpo.partition) c.windows in
      record c {
        hook_state = run_hook setup.evaluation_hook (status_now tpo c) records c.hook_state;
        written = c.written ++ partition_writes (status_now tpo c) cluster;
      }

  -- A step of the goroutine of the group: a partition that Kafka fails on is left out, one with no
  -- committed offset is noted, and else its record is added, and in a later step it is evaluated.
  pub data Move (c : Collector F H) : Thread F → Thread F → Collector F H → Type 0 where
    failed :
        {tpo : TopicPartitionOffset} {rest : List TopicPartitionOffset} {acc : GroupStatus F}
        {e : Error}
        → round.get_high_watermark g tpo ≡ err e
        → Move c (next_is (tpo ∷ rest) acc) (next_is rest acc) c
    has_none :
        {tpo : TopicPartitionOffset} {rest : List TopicPartitionOffset} {acc : GroupStatus F}
        {high : ℤ}
        → round.get_high_watermark g tpo ≡ ok high
        → eqb_ℤ tpo.offset setup.offset_invalid ≡ true
        → Move c
            (next_is (tpo ∷ rest) acc)
            (next_is rest (add_partition (uncommitted setup cluster round g tpo high) acc))
            c
    adds :
        {tpo : TopicPartitionOffset} {rest : List TopicPartitionOffset} {acc : GroupStatus F}
        {high : ℤ}
        → round.get_high_watermark g tpo ≡ ok high
        → eqb_ℤ tpo.offset setup.offset_invalid ≡ false
        → Move c (next_is (tpo ∷ rest) acc) (has_added tpo rest acc) (recorded tpo high c)
    evaluates :
        {tpo : TopicPartitionOffset} {rest : List TopicPartitionOffset} {acc : GroupStatus F}
        → Move c
            (has_added tpo rest acc)
            (next_is rest (add_partition (status_now tpo c) acc))
            (reported tpo c)

-- The goroutines of all groups.
abbrev pub Threads : Type 0 → Type 0
Threads F = Str → Thread F

module _ {F : Type 0} where
  abbrev pub with_thread : Str → Thread F → Threads F → Threads F
  with_thread g t threads h = if str_eq g h then t else threads h

module _ {F H : Type 0} ⦃f : Float64 F⦄ (setup : Setup F H) (cluster : Str) (round : Round F) where
  -- The collectors and goroutines that some others become, the steps of the groups in any order.
  pub data Runs (c : Collector F H) (threads : Threads F) : Collector F H → Threads F → Type 0 where
    at_first : Runs c threads c threads
    moves :
        {next last : Collector F H} {them : Threads F} (g : Str) {t : Thread F}
        → Runs c threads next them
        → Move setup cluster round g next (them g) t last
        → Runs c threads last (with_thread g t them)

  abbrev begin_with : ℕ → Str → Result Error (List TopicPartitionOffset) → Thread F
  begin_with members g (err e) = next_is [] (new_group g members (round.group_now g) 0)
  begin_with members g (ok offsets) =
      next_is offsets (new_group g members (round.group_now g) (length offsets))

  -- The goroutine of a group at its start; with no offsets it has only its error to send.
  unfoldable pub begin : Map ℕ → Threads F
  begin members g = begin_with (or_zero (lookup g members)) g (round.get_consumer_group_offsets g)

  abbrev pub so_far : Thread F → GroupStatus F
  so_far (next_is rest acc) = acc
  so_far (has_added tpo rest acc) = acc

  abbrev sent_with :
      Str → GroupStatus F → Result Error (List TopicPartitionOffset) → Result Error (GroupStatus F)
  sent_with g acc (err e) = err (group_offsets_failed cluster e)
  sent_with g acc (ok offsets) = ok (record acc { overall_health = overall_health acc })

  -- What a goroutine sends at its end.
  unfoldable pub sent : Str → Thread F → Result Error (GroupStatus F)
  sent g t = sent_with g (so_far t) (round.get_consumer_group_offsets g)

  -- A goroutine has no partition left.
  abbrev pub IsFinished : Thread F → Type 0
  IsFinished (next_is [] acc) = Unit
  IsFinished (next_is (tpo ∷ rest) acc) = ⊥
  IsFinished (has_added tpo rest acc) = ⊥
