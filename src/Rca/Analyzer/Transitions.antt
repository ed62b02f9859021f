-- ===== src/Rca/Analyzer/Transitions.antt =====
-- The analyzer: which changes of a status are published, and what it remembers.
use lag_radar.Base.{
  ◌*◌, ◌≡◌, refl, ◌∙◌, ap, ◌⊎◌, inl, inr, Bool, true, false, List, Option, none, some, arith,
  Bool-cases, if◌then◌else◌,
}
use lag_radar.Base.Clock.{Time, minute, sub_time}
use lag_radar.Base.Text.{Str, str_eq, str_eq_refl}
use lag_radar.Base.Int.{pos, ltb_ℤ}
use lag_radar.Base.Float.{Float64}
use lag_radar.Base.Map.{Map, lookup, lookup-insert}
use lag_radar.Collector.Types.{ConsumerStatus, OffsetRecord, PartitionConsumerStatus, Config}
use lag_radar.Rca.Events.{EventSeverity, EventType, from_status}
use lag_radar.Rca.Publisher.{Redis, Codec, EventPublisher, Returns}
use lag_radar.Rca.Analyzer.{
  detect_rise, detect_cleared, publish_change, publish_status_change, Analyzer, Reading,
  change_event, same_status, has_cleared, rises_rapidly, note_event, publish,
  detect_and_publish_events, detect_critical_conditions, get_status_key, is_quiet,
}
use lag_radar.Rca.Analyzer.Changes.{Reported, Reported-event, unreported-event}

module _ {F S : Type 0} ⦃f : Float64 F⦄ (codec : Codec F) (redis : Redis S) (config : Config F)
    (p : EventPublisher) (reading : Reading) (status : PartitionConsumerStatus F)
    (records : List OffsetRecord) (a : Analyzer S) where
  abbrev key : Str
  key = get_status_key codec redis config p reading status

  abbrev after : Analyzer S
  after = detect_and_publish_events codec redis config p reading status records a

  abbrev quiet : Option Time → Bool
  quiet = is_quiet codec redis config p reading

  abbrev rises : Bool
  rises = rises_rapidly codec redis config p reading status

  -- `P` is kept by what the analysis does when it publishes.
  abbrev KeptByEvents : (Analyzer S → Type 0) → Type 0
  KeptByEvents P =
      ((b : Analyzer S) (r : Returns S) → P b → P (note_event codec redis config p reading key b r))
      × ((b : Analyzer S) (s : S) → P b → P (record b { server = s }))

  detect_critical_conditions-keeps :
      (P : Analyzer S → Type 0) (b : Analyzer S)
      → KeptByEvents P
      → P b
      → P (detect_critical_conditions codec redis config p reading status records b)
  unfolding detect_critical_conditions
  detect_critical_conditions-keeps P b kept h = cleared (rise (Bool-cases rises))
    where
      rise :
          (rises ≡ true) ⊎ (rises ≡ false) → P (detect_rise codec redis config p reading status b)
      rise (inl up) = rw (up, detect_rise) (kept.0 b _ h)
      rise (inr flat) = rw (flat, detect_rise) h

      cleared :
          {c : Analyzer S} → P c → P (detect_cleared codec redis config p reading status records c)
      cleared {c} k = elim (Bool-cases (has_cleared status.current_lag records)) [
        | inl gone ↦ rw (gone, detect_cleared) (kept.1 c _ k)
        | inr lags ↦ rw (lags, detect_cleared) k
      ]

  publish_change-keeps :
      (P : Analyzer S → Type 0) (event : Option (EventType × EventSeverity)) (b : Analyzer S)
      → KeptByEvents P
      → P b
      → P (publish_change codec redis config p reading status event b)
  unfolding publish_change
  publish_change-keeps P none b kept h = h
  publish_change-keeps P (some e) b kept h = kept.0 b _ h

  publish_status_change-keeps :
      (P : Analyzer S → Type 0) (previous : Option ConsumerStatus) (b : Analyzer S)
      → KeptByEvents P
      → P b
      → P (publish_status_change codec redis config p reading status previous b)
  unfolding publish_status_change
  publish_status_change-keeps P none b kept h = h
  publish_status_change-keeps P (some old) b kept h =
      elim (Bool-cases (same_status old status.status)) [
        | inl same ↦ rw same h
        | inr changed ↦
            rw changed (publish_change-keeps P (change_event status.status old) b kept h)
      ]

  previous_statuses-kept : (m : Map ConsumerStatus) → KeptByEvents (λ b. b.previous_statuses ≡ m)
  previous_statuses-kept m = (noted, λ b s h. h)
    where
      noted :
          (b : Analyzer S) (r : Returns S)
          → b.previous_statuses ≡ m
          → (note_event codec redis config p reading key b r).previous_statuses ≡ m
      noted b (none, s) h = h
      noted b (some e, s) h = h

  -- An analysis that is not in the five quiet minutes after an event of its partition remembers the
  -- status of the partition, and what is remembered of the others stays.
  pub previous_status_remembered :
      quiet (lookup key a.last_event_time) ≡ false
      → (j : Str)
      → lookup j after.previous_statuses
        ≡ (if str_eq key j then some status.status else lookup j a.previous_statuses)
  unfolding detect_and_publish_events
  previous_status_remembered loud j =
      let kept = previous_statuses-kept a.previous_statuses in
      let P = λ (b : Analyzer S). b.previous_statuses ≡ a.previous_statuses in
      let same =
        detect_critical_conditions-keeps P _ kept
          (publish_status_change-keeps P (lookup key a.previous_statuses) a kept refl) in
      rw (loud, detect_and_publish_events)
        (lookup-insert key j status.status _
          ∙ ap (λ m. if str_eq key j then some status.status else lookup j m) same)

  detect_nothing :
      (b : Analyzer S)
      → rises ≡ false
      → has_cleared status.current_lag records ≡ false
      → detect_critical_conditions codec redis config p reading status records b ≡ b
  unfolding detect_critical_conditions detect_rise detect_cleared
  detect_nothing b flat lags = rw (lags, flat)

  change_nothing :
      (old : ConsumerStatus) (b : Analyzer S)
      → change_event status.status old ≡ none
      → publish_status_change codec redis config p reading status (some old) b ≡ b
  unfolding publish_status_change publish_change
  change_nothing old b silent = elim (Bool-cases (same_status old status.status)) [
    | inl same ↦ rw same
    | inr changed ↦ rw (changed, silent)
  ]

  -- Where the remembered status of the partition is such that its change has no event, and neither does
  -- the lag rise rapidly nor has it been cleared, an analysis writes nothing to Redis.
  pub nothing_published :
      {old : ConsumerStatus}
      → lookup key a.previous_statuses ≡ some old
      → change_event status.status old ≡ none
      → rises ≡ false
      → has_cleared status.current_lag records ≡ false
      → after.server ≡ a.server
  unfolding detect_and_publish_events
  nothing_published {old} known silent flat lags =
      elim (Bool-cases (quiet (lookup key a.last_event_time))) [
        | inl still ↦ rw (still, detect_and_publish_events)
        | inr loud ↦
            rw (loud, detect_and_publish_events, known, change_nothing old a silent)
              (ap (λ (b : Analyzer S). b.server) (detect_nothing a flat lags))
      ]

  changed_of_event :
      (old : ConsumerStatus) {e : EventType × EventSeverity}
      → change_event status.status old ≡ some e
      → same_status old status.status ≡ false
  unfolding change_event same_status
  changed_of_event old event = ground arith

  change_to_publish :
      (old : ConsumerStatus) (b : Analyzer S) {kind : EventType} {severity : EventSeverity}
      → change_event status.status old ≡ some (kind, severity)
      → (publish_status_change codec redis config p reading status (some old) b).server
        ≡ (publish codec redis config p reading kind severity status
            (from_status status.message)
            b.server).1
  unfolding publish_status_change publish_change
  change_to_publish old b {kind} {severity} event =
      let sent =
        publish codec redis config p reading kind severity status (from_status status.message)
          b.server in
      rw (changed_of_event old event, event) (noted sent)
    where
      noted : (r : Returns S) → (note_event codec redis config p reading key b r).server ≡ r.1
      noted (none, s) = refl
      noted (some e, s) = refl

  -- For an analysis outside the five quiet minutes of its partition, whose lag neither rises rapidly nor
  -- has been cleared, and a remembered status of the partition. From active or lagging to stopped it
  -- publishes consumer_stopped as critical, from active to stalled consumer_stalled as a warning,
  -- and from stopped or stalled to active or empty consumer_recovered for information, with the
  -- message of the new status, and nothing else; and for any other change it writes nothing to Redis.
  pub change_published :
      {old : ConsumerStatus}
      → lookup key a.previous_statuses ≡ some old
      → quiet (lookup key a.last_event_time) ≡ false
      → rises ≡ false
      → has_cleared status.current_lag records ≡ false
      → ((kind : EventType) (severity : EventSeverity)
          → Reported status.status old (kind, severity)
          → after.server
            ≡ (publish codec redis config p reading kind severity status
                (from_status status.message)
                a.server).1)
        × (((e : EventType × EventSeverity) → ¬ Reported status.status old e)
            → after.server ≡ a.server)
  unfolding detect_and_publish_events
  change_published {old} known loud flat lags = (
    λ kind severity listed.
        rw (loud, detect_and_publish_events, known)
          (ap (λ (b : Analyzer S). b.server) (detect_nothing _ flat lags)
            ∙ change_to_publish old a (Reported-event status.status old (kind, severity) listed)),
    λ unlisted. nothing_published known (unreported-event status.status old unlisted) flat lags,
  )

  last_event_time-kept : KeptByEvents (λ b. lookup key b.last_event_time ≡ some reading.now)
  last_event_time-kept = (noted, λ b s h. h)
    where
      noted :
          (b : Analyzer S) (r : Returns S)
          → lookup key b.last_event_time ≡ some reading.now
          → lookup key (note_event codec redis config p reading key b r).last_event_time
            ≡ some reading.now
      noted b (none, s) h =
          lookup-insert key key reading.now b.last_event_time ∙ rw (str_eq_refl key)
      noted b (some e, s) h = h

  -- The first analysis notes the time of its event.
  last_event_time_noted :
      {old : ConsumerStatus} {kind : EventType} {severity : EventSeverity}
      → lookup key a.previous_statuses ≡ some old
      → change_event status.status old ≡ some (kind, severity)
      → quiet (lookup key a.last_event_time) ≡ false
      → (publish codec redis config p reading kind severity status
          (from_status status.message)
          a.server).0
        ≡ none
      → lookup key after.last_event_time ≡ some reading.now
  unfolding detect_and_publish_events publish_status_change publish_change
  last_event_time_noted {old} {kind} {severity} known event loud sent =
      let P = λ (b : Analyzer S). lookup key b.last_event_time ≡ some reading.now in
      let noted = lookup-insert key key reading.now a.last_event_time ∙ rw (str_eq_refl key) in
      rw (loud, detect_and_publish_events, known, changed_of_event old event, event)
        (detect_critical_conditions-keeps P _ last_event_time-kept (rw sent noted))

  -- If an analysis publishes the event of a change of status, an analysis of the same partition less
  -- than five minutes later changes nothing: it publishes no event, and the status is not remembered.
  pub quiet_after_event :
      {old : ConsumerStatus} {kind : EventType} {severity : EventSeverity} (later : Reading)
      (next : PartitionConsumerStatus F) (next_records : List OffsetRecord)
      → lookup key a.previous_statuses ≡ some old
      → change_event status.status old ≡ some (kind, severity)
      → quiet (lookup key a.last_event_time) ≡ false
      → (publish codec redis config p reading kind severity status
          (from_status status.message)
          a.server).0
        ≡ none
      → get_status_key codec redis config p later next ≡ key
      → ltb_ℤ (sub_time later.now reading.now) (pos (5 * minute)) ≡ true
      → detect_and_publish_events codec redis config p later next next_records after ≡ after
  unfolding detect_and_publish_events
  quiet_after_event later next next_records known event loud sent same soon =
      rw (detect_and_publish_events, same, last_event_time_noted known event loud sent, soon)
