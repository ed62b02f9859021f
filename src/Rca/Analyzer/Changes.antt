-- ===== src/Rca/Analyzer/Changes.antt =====
-- The `switch` of `publishStatusChangeEvent`: which changes of a status have an event.
use lag_radar.Base.{◌≡◌, ◌⊎◌, inl, inr, none, some, arith, Option-cases}
use lag_radar.Collector.Types.{ConsumerStatus, active, lagging, stalled, stopped, empty}
use lag_radar.Rca.Events.{
  EventSeverity, EventType, consumer_stopped, consumer_stalled, consumer_recovered, critical,
  warning, info,
}
use lag_radar.Rca.Analyzer.{change_event, same_status}

-- The changes of a status that have an event, the new status first: those that the README lists, with
-- a partition that becomes empty as recovered too.
unfoldable pub Reported : ConsumerStatus → ConsumerStatus → EventType × EventSeverity → Type 0
Reported new old e =
    ((e ≡ (consumer_stopped, critical)) × (new ≡ stopped) × ((old ≡ active) ⊎ (old ≡ lagging)))
    ⊎ ((e ≡ (consumer_stalled, warning)) × (new ≡ stalled) × (old ≡ active))
    ⊎ ((e ≡ (consumer_recovered, info))
        × ((new ≡ active) ⊎ (new ≡ empty))
        × ((old ≡ stopped) ⊎ (old ≡ stalled)))

event-Reported :
    (new old : ConsumerStatus) (e : EventType × EventSeverity)
    → change_event new old ≡ some e
    → Reported new old e
unfolding change_event same_status Reported
event-Reported new old e h = ground arith

pub Reported-event :
    (new old : ConsumerStatus) (e : EventType × EventSeverity)
    → Reported new old e
    → change_event new old ≡ some e
unfolding change_event same_status Reported
Reported-event new old e h = ground arith

pub unreported-event :
    (new old : ConsumerStatus)
    → ((e : EventType × EventSeverity) → ¬ Reported new old e)
    → change_event new old ≡ none
unreported-event new old h = elim (Option-cases (change_event new old)) [
  | inl silent ↦ silent
  | inr (e, event) ↦ absurd (h e (event-Reported new old e event))
]
