-- ===== src/Tests/Rca.antt =====
-- A server that keeps the times at which its keys end, and refuses some additions to its streams.
use lag_radar.Base.{
  ℕ, zero, suc, ◌*◌, ◌≡◌, refl, inl, inr, Bool, true, false, ◌&&◌, List, [], ◌∷◌, Option, some,
  none, arith, Bool-cases, if◌then◌else◌,
}
use lag_radar.Base.Int.{ℤ, pos, ◌*ℤ◌, ◌+ℤ◌, ◌-ℤ◌, ltb_ℤ}
use lag_radar.Base.Text.{Str, codes, itoa, str_eq, str_eq_refl}
use lag_radar.Base.Clock.{Time, Duration, second, minute, truncate, unix, sub_time}
use lag_radar.Base.Map.{lookup}
use lag_radar.Base.Result.{Result, ok, err}
use lag_radar.Collector.Types.{PartitionConsumerStatus, stalled, stopped, active}
use lag_radar.Collector.Evaluator.{blank_status}
use lag_radar.Collector.Window.{window_key}
use lag_radar.Rca.Events.{
  EventType, EventSeverity, event_type_name, from_status, consumer_stopped, critical, cleared_lag,
}
use lag_radar.Rca.Publisher.{
  Redis, StreamEntry, Codec, EventPublisher, generate_fingerprint, event_of, publish_failed,
  add_with_retries, publish_entry, publish_partition_event,
}
use lag_radar.Rca.Publisher.Retry.{attempts_from, retries_succeed}
use lag_radar.Rca.Publisher.Dedup.{IsRedis, second_event_dropped, failed_event_lost}
use lag_radar.Rca.Analyzer.{
  rises_rapidly, has_cleared, same_status, Analyzer, Reading, publish, detect_and_publish_events,
  change_event,
}
use lag_radar.Rca.Analyzer.Changes.{Reported}
use lag_radar.Rca.Analyzer.Transitions.{change_published, quiet_after_event}
use lag_radar.Tests.{whole, small, orders, billing, local}

record Server : Type 0 where
  ends : List (Str × Time)
  refusals : ℕ

unfoldable held_in : List (Str × Time) → Str → Time → Bool
held_in [] key t = false
held_in ((j, end) ∷ ends) key t = if str_eq j key && ltb_ℤ t end then true else held_in ends key t

abbrev held : Server → Str → Time → Bool
held s = held_in s.ends

unfoldable set_nx : Time → Str → Duration → Server → Result ℕ Bool × Server
set_nx now key ttl s =
    if held s key now
    then (ok false, s)
    else (ok true, record s { ends = (key, now +ℤ ttl) ∷ s.ends })

abbrev add_entry : ℕ → Server → Result ℕ Str × Server
add_entry zero s = (ok [], s)
add_entry (suc n) s = (err 7, record s { refusals = n })

abbrev server : Redis Server
server = record { set_nx = set_nx; x_add = λ now stream entry s. add_entry s.refusals s }

server-IsRedis : IsRedis server held
unfolding set_nx held_in
server-IsRedis = record {
  set_nx_held = λ now key ttl s h answers. rw h;
  set_nx_new = λ now later key ttl s new after before. fresh_key now later key ttl s before new;
  x_add_held = λ now later stream key entry s h. unchanged key later s s.refusals h;
}
  where
    fresh_key :
        (now later : Time) (key : Str) (ttl : Duration) (s : Server)
        → ltb_ℤ later (now +ℤ ttl) ≡ true
        → (set_nx now key ttl s).0 ≡ ok true
        → held (set_nx now key ttl s).1 key later ≡ true
    fresh_key now later key ttl s before new = elim (Bool-cases (held s key now)) [
      | inl there ↦ absurd (ground arith)
      | inr gone ↦ rw (gone, str_eq_refl key, before)
    ]

    unchanged :
        (key : Str) (later : Time) (s : Server) (n : ℕ)
        → held s key later ≡ true
        → held (add_entry n s).1 key later ≡ true
    unchanged key later s zero h = h
    unchanged key later s (suc n) h = h

abbrev codec : Codec ℤ
codec = record { md5_hex = λ s. s; marshal = λ e. ok [] }

abbrev publisher : EventPublisher
publisher = record {
  enabled = true;
  cluster_name = local;
  config = record {
    enabled = true;
    stream_key = codes "events";
    max_retries = 2;
    de_dupe_window = pos (5 * minute);
  };
}

abbrev entry : StreamEntry
entry = record {
  event = [];
  event_type = consumer_stopped;
  severity = critical;
  cluster = local;
  group_id = billing;
  topic = orders;
  partition = codes "0";
  timestamp = pos 0;
}

abbrev refusing : ℕ → Server
refusing n = record { ends = []; refusals = n }

retries_succeed_example :
    add_with_retries server (pos 0) orders entry 3 3 none (refusing 2)
    ≡ (none, attempts_from server (pos 0) orders entry 3 (refusing 2))
unfolding attempts_from
retries_succeed_example =
    retries_succeed server (pos 0) orders entry 3 3 2 none (refusing 2) (omega arith)
      ((7, refl), ((7, refl), tt)) refl

abbrev stopped_status : PartitionConsumerStatus ℤ
stopped_status = record (blank_status billing orders (pos 0)) { status = stopped }

second_event_dropped_example :
    let first =
      publish_partition_event codec server publisher
        (pos 0)
        (codes "a")
        consumer_stopped
        critical
        stopped_status
        cleared_lag
        (refusing 0) in
    publish_partition_event codec server
      (record publisher { cluster_name = orders })
      (pos second)
      (codes "b")
      consumer_stopped
      critical
      stopped_status
      cleared_lag
      first.1
    ≡ (none, first.1)
unfolding set_nx held_in ◌+ℤ◌ ◌-ℤ◌ truncate unix publish_partition_event publish_entry
    add_with_retries str_eq generate_fingerprint event_of event_type_name itoa
second_event_dropped_example =
    second_event_dropped codec server held server-IsRedis publisher orders (pos 0) (pos second)
      (codes "a") (codes "b") consumer_stopped critical critical stopped_status stopped_status
      cleared_lag cleared_lag (refusing 0) refl refl refl refl (omega arith) refl (refl, refl, refl)
      refl refl

failed_event_lost_example :
    let first =
      publish_partition_event codec server publisher
        (pos 0)
        (codes "a")
        consumer_stopped
        critical
        stopped_status
        cleared_lag
        (refusing 2) in
    ((x : Option ℕ) × (first.0 ≡ some (publish_failed 2 x)))
    × (publish_partition_event codec server publisher
          (pos second)
          (codes "b")
          consumer_stopped
          critical
          stopped_status
          cleared_lag
          first.1
        ≡ (none, first.1))
unfolding set_nx held_in ◌+ℤ◌ ◌-ℤ◌ truncate unix publish_partition_event publish_entry
    add_with_retries str_eq generate_fingerprint event_of event_type_name itoa
failed_event_lost_example =
    failed_event_lost codec server held server-IsRedis publisher (pos 0) (pos second) (codes "a")
      (codes "b") consumer_stopped critical stopped_status cleared_lag (refusing 2) refl refl refl
      ((7, refl), ((7, refl), tt)) (omega arith) refl refl refl refl

abbrev reading : Reading
reading = record { now = pos (10 * minute); id_of = λ kind. [] }

-- The partition was `stalled` when it was last analysed.
abbrev was_stalled : Analyzer Server
was_stalled = record {
  previous_statuses = (codes "billing:orders:0", stalled) ∷ [];
  last_event_time = [];
  server = refusing 0;
}

abbrev analyzed : Analyzer Server
analyzed =
    detect_and_publish_events codec server small publisher reading stopped_status [] was_stalled

-- The partition was `active`, so that the analysis reports it as stopped.
abbrev was_active : Analyzer Server
was_active = record was_stalled { previous_statuses = (codes "billing:orders:0", active) ∷ [] }

abbrev reported : Analyzer Server
reported =
    detect_and_publish_events codec server small publisher reading stopped_status [] was_active

change_published_example :
    ((kind : EventType) (severity : EventSeverity)
      → Reported stopped active (kind, severity)
      → reported.server
        ≡ (publish codec server small publisher reading kind severity stopped_status
            (from_status stopped_status.message)
            (refusing 0)).1)
    × (((e : EventType × EventSeverity) → ¬ Reported stopped active e)
        → reported.server ≡ refusing 0)
unfolding window_key itoa lookup str_eq rises_rapidly has_cleared ◌*ℤ◌
change_published_example =
    change_published codec server small publisher reading stopped_status [] was_active refl refl
      refl refl

abbrev two_minutes_later : Reading
two_minutes_later = record reading { now = pos (12 * minute) }

abbrev running_again : PartitionConsumerStatus ℤ
running_again = record stopped_status { status = active }

quiet_after_event_example :
    detect_and_publish_events codec server small publisher two_minutes_later running_again []
      reported
    ≡ reported
unfolding window_key itoa lookup str_eq same_status change_event publish publish_partition_event
    set_nx held_in add_with_retries publish_entry sub_time ◌-ℤ◌
quiet_after_event_example =
    quiet_after_event codec server small publisher reading stopped_status [] was_active
      two_minutes_later running_again [] refl refl refl refl refl refl
