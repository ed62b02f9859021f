-- ===== src/Rca/Analyzer.antt =====
-- internal/publisher/analyzer.go: `EvaluatorWithRCA`, with the hook of internal/cluster/helper.go.
pub mod Changes
pub mod Transitions
use lag_radar.Base.{
  ℕ, ◌*◌, ◌<◌, Bool, true, false, not, ◌&&◌, ◌||◌, List, [], ◌∷◌, Option, none, some, length, ltb,
  if◌then◌else◌,
}
use lag_radar.Base.Int.{ℤ, pos, ltb_ℤ}
use lag_radar.Base.Word.{eqb_ℤ}
use lag_radar.Base.Text.{Str}
use lag_radar.Base.Clock.{Time, minute, sub_time}
use lag_radar.Base.Float.{Float64}
use lag_radar.Base.Map.{Map, lookup, insert}
use lag_radar.Collector.Types.{
  ConsumerStatus, active, lagging, stalled, stopped, empty, unknown, no_status, OffsetRecord,
  PartitionConsumerStatus, Config,
}
use lag_radar.Collector.Evaluator.{evaluate_partition_consumer}
use lag_radar.Collector.Window.{window_key}
use lag_radar.Rca.Events.{
  EventSeverity, info, warning, critical, EventType, consumer_stopped, consumer_stalled,
  rapid_lag_increase, consumer_recovered, lag_cleared, Description, from_status, rising_rapidly,
  cleared_lag,
}
use lag_radar.Rca.Publisher.{
  Redis, Codec, EventPublisher, PublishError, Returns, publish_partition_event,
}

-- The evaluator's maps, and the Redis server that its publisher writes to.
pub record Analyzer (S : Type 0) : Type 0 where
  pub previous_statuses : Map ConsumerStatus
  pub last_event_time : Map Time
  pub server : S

-- What one analysis reads of the clock and of the generator of identifiers.
pub record Reading : Type 0 where
  pub now : Time
  pub id_of : EventType → Str

-- `a == b`
unfoldable pub same_status : ConsumerStatus → ConsumerStatus → Bool
same_status active active = true
same_status lagging lagging = true
same_status stalled stalled = true
same_status stopped stopped = true
same_status empty empty = true
same_status unknown unknown = true
same_status no_status no_status = true
same_status _ _ = false

-- The case of `active` and `empty`.
abbrev pub recovery_from : ConsumerStatus → Option (EventType × EventSeverity)
recovery_from previous =
    if same_status previous stopped || same_status previous stalled
    then some (consumer_recovered, info)
    else none

-- The `switch` of `publishStatusChangeEvent`, on the new status, with its tests of the previous one.
-- `none` is the empty event type.
unfoldable pub change_event : ConsumerStatus → ConsumerStatus → Option (EventType × EventSeverity)
change_event stopped previous =
    if same_status previous active || same_status previous lagging
    then some (consumer_stopped, critical)
    else none
change_event stalled previous =
    if same_status previous active then some (consumer_stalled, warning) else none
change_event active previous = recovery_from previous
change_event empty previous = recovery_from previous
change_event _ previous = none

-- `records[len(records)-2]`, where there is one.
before_last : List OffsetRecord → Option OffsetRecord
before_last [] = none
before_last (a ∷ []) = none
before_last (a ∷ b ∷ []) = some a
before_last (a ∷ b ∷ c ∷ rest) = before_last (b ∷ c ∷ rest)

abbrev lag_above : ℤ → Option OffsetRecord → Bool
lag_above bound none = false
lag_above bound (some r) = ltb_ℤ bound r.lag

-- `status.CurrentLag == 0 && len(records) > 2 && records[len(records)-2].Lag > 1000`
unfoldable pub has_cleared : ℤ → List OffsetRecord → Bool
unfolding before_last
has_cleared current_lag records =
    eqb_ℤ current_lag (pos 0)
    && (ltb 2 (length records) && lag_above (pos 1000) (before_last records))

module _ {F S : Type 0} ⦃f : Float64 F⦄ (codec : Codec F) (redis : Redis S) (config : Config F)
    (p : EventPublisher) (reading : Reading) where
  -- `getStatusKey`
  abbrev pub get_status_key : PartitionConsumerStatus F → Str
  get_status_key s = window_key s.group_id s.topic s.partition

  unfoldable pub publish :
      EventType → EventSeverity → PartitionConsumerStatus F → Description F → S → Returns S
  publish kind severity status description server =
      publish_partition_event codec redis p reading.now (reading.id_of kind) kind severity status
        description server

  -- What is noted after a publication that sets the time of the last event.
  abbrev pub note_event : Str → Analyzer S → Returns S → Analyzer S
  note_event key a (none, server) = record a {
    server = server;
    last_event_time = insert key reading.now a.last_event_time;
  }
  note_event key a (some e, server) = record a { server = server }

  publish_change :
      PartitionConsumerStatus F → Option (EventType × EventSeverity) → Analyzer S → Analyzer S
  publish_change status none a = a
  publish_change status (some (kind, severity)) a =
      note_event (get_status_key status) a
        (publish kind severity status (from_status status.message) a.server)

  -- `publishStatusChangeEvent`, where there is a previous status and it differs.
  publish_status_change :
      PartitionConsumerStatus F → Option ConsumerStatus → Analyzer S → Analyzer S
  unfolding publish_change
  publish_status_change status none a = a
  publish_status_change status (some previous) a =
      if same_status previous status.status
      then a
      else publish_change status (change_event status.status previous) a

  -- `status.LagChangeRate > RapidLagIncreaseRate*2 && status.CurrentLag > 1000`
  unfoldable pub rises_rapidly : PartitionConsumerStatus F → Bool
  rises_rapidly status =
      f.lt (f.mul config.rapid_lag_increase_rate (f.of_int (pos 2))) status.lag_change_rate
      && ltb_ℤ (pos 1000) status.current_lag

  detect_rise : PartitionConsumerStatus F → Analyzer S → Analyzer S
  unfolding rises_rapidly
  detect_rise status a =
      if rises_rapidly status
      then note_event (get_status_key status) a (
          publish rapid_lag_increase warning status
            (rising_rapidly status.lag_change_rate config.rapid_lag_increase_rate) a.server)
      else a

  -- The event of a cleared lag does not set the time of the last event.
  detect_cleared : PartitionConsumerStatus F → List OffsetRecord → Analyzer S → Analyzer S
  detect_cleared status records a =
      if has_cleared status.current_lag records
      then record a { server = (publish lag_cleared info status cleared_lag a.server).1 }
      else a

  -- `detectCriticalConditions`
  unfoldable pub detect_critical_conditions :
      PartitionConsumerStatus F → List OffsetRecord → Analyzer S → Analyzer S
  unfolding detect_rise detect_cleared
  detect_critical_conditions status records a = detect_cleared status records (detect_rise status a)

  -- Less than five minutes have passed since the last event.
  abbrev pub is_quiet : Option Time → Bool
  is_quiet none = false
  is_quiet (some t) = ltb_ℤ (sub_time reading.now t) (pos (5 * minute))

  unfoldable pub detect_and_publish_events :
      PartitionConsumerStatus F → List OffsetRecord → Analyzer S → Analyzer S
  unfolding publish_status_change
  detect_and_publish_events status records a =
      let key = get_status_key status in
      let changed = publish_status_change status (lookup key a.previous_statuses) a in
      let checked = detect_critical_conditions status records changed in
      if is_quiet (lookup key a.last_event_time)
      then a
      else record checked { previous_statuses = insert key status.status checked.previous_statuses }

  -- `EvaluatePartitionConsumerWithRCA`, with a publisher.
  unfoldable pub evaluate_with_rca :
      List OffsetRecord → Str → Str → ℤ → Analyzer S → PartitionConsumerStatus F × Analyzer S
  evaluate_with_rca records group_id topic partition a =
      let status = evaluate_partition_consumer config records group_id topic partition in
      (status, detect_and_publish_events status records a)

  -- `analyzePartition`, the evaluation hook of a collector.
  unfoldable pub analyze_partition :
      PartitionConsumerStatus F → List OffsetRecord → Analyzer S → Analyzer S
  unfolding evaluate_with_rca
  analyze_partition status records a =
      (evaluate_with_rca records status.group_id status.topic status.partition a).1
