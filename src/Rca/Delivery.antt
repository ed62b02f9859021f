-- ===== src/Rca/Delivery.antt =====
-- The stream between internal/publisher/publisher.go and internal/rca/consumer/consumer.go: what is
-- added to it, and what a consumer reads of it.
pub mod Published
pub mod Consumed
use lag_radar.Base.{
  ℕ, zero, suc, ◌+◌, ◌≤◌, ◌≡◌, refl, sym, ap, ◌∙◌, Bool, true, false, not, if◌then◌else◌, List, [],
  ◌∷◌, ◌++◌, map, none, some, length, length-append, arith, append-nil, append_assoc, ◌≢◌,
}
use lag_radar.Base.Int.{ℤ, pos}
use lag_radar.Base.Text.{Str, codes, itoa, str_eq}
use lag_radar.Base.Clock.{Time, Duration}
use lag_radar.Base.Map.{lookup}
use lag_radar.Base.Result.{Result, ok}
use lag_radar.Collector.Types.{PartitionConsumerStatus}
use lag_radar.Rca.Events.{
  EventSeverity, info, warning, critical, EventType, event_type_name, Description, KafkaLagEvent,
}
use lag_radar.Rca.Publisher.{
  StreamEntry, Redis, Codec, EventPublisher, Returns, generate_fingerprint, event_of, stream_entry,
  dedupe_key, add_with_retries, after_marshal, publish_entry, publish_partition_event,
}
use lag_radar.Rca.Consumer.{
  ConsumerConfig, StreamMessage, string, messages, read_error, Streams, EventHandler, run_handlers,
  consume_batch,
}
use lag_radar.Rca.Consumer.Batch.{all_messages, readable, ack_all, handle_all, consume_batch_lem}

-- The constants' texts.
unfoldable pub severity_name : EventSeverity → Str
severity_name info = codes "info"
severity_name warning = codes "warning"
severity_name critical = codes "critical"

-- An entry as a consumer reads it: its values under their keys, each a string.
unfoldable pub message_of : Str × StreamEntry → StreamMessage
message_of (id, entry) = record {
  message_id = id;
  values =
      (codes "event", string entry.event)
      ∷ (codes "type", string (event_type_name entry.event_type))
      ∷ (codes "severity", string (severity_name entry.severity))
      ∷ (codes "cluster", string entry.cluster)
      ∷ (codes "group_id", string entry.group_id)
      ∷ (codes "topic", string entry.topic)
      ∷ (codes "partition", string entry.partition)
      ∷ (codes "timestamp", string (itoa entry.timestamp))
      ∷ [];
}

-- The length to which `XAdd` lets Redis trim the stream.
abbrev pub max_len : ℕ
max_len = 100000

-- What the two sides rely on of one Redis: `pending s` are the entries of the stream that the group has
-- not been given, the oldest first.
pub record IsStream {S : Type 0} (redis : Redis S) (streams : Streams S) (config : ConsumerConfig)
    (pending : S → List (Str × StreamEntry)) : Type 0 where
  pub set_nx_pending :
      (now : Time) (key : Str) (ttl : Duration) (s : S)
      → pending (redis.set_nx now key ttl s).1 ≡ pending s
  -- An entry that is added is the last one, and none is trimmed that leaves room.
  pub x_add_pending :
      (now : Time) (stream : Str) (entry : StreamEntry) (s : S) {id : Str}
      → stream ≡ config.stream_key
      → (redis.x_add now stream entry s).0 ≡ ok id
      → suc (length (pending s)) ≤ max_len
      → pending (redis.x_add now stream entry s).1 ≡ pending s ++ (id, entry) ∷ []
  -- A read that is answered gives all entries, where there are some and no more than its count.
  pub x_read_pending :
      (n : ℕ) (s : S)
      → config.batch_size ≡ pos n
      → 1 ≤ length (pending s)
      → length (pending s) ≤ n
      → ((e : Str) → (streams.x_read_group config s).0 ≢ read_error e)
      → ((streams.x_read_group config s).0
          ≡ messages ((config.stream_key, map message_of (pending s)) ∷ []))
        × (pending (streams.x_read_group config s).1 ≡ [])
  pub x_ack_pending :
      (id : Str) (s : S)
      → pending (streams.x_ack config.stream_key config.consumer_group id s).1 ≡ pending s

-- What `PublishPartitionEvent` is called with, and what it reads of the clock and of the generator of
-- identifiers.
pub record Report (F : Type 0) : Type 0 where
  pub now : Time
  pub id : Str
  pub event_type : EventType
  pub severity : EventSeverity
  pub status : PartitionConsumerStatus F
  pub description : Description F

module _ {F : Type 0} (codec : Codec F) (p : EventPublisher) where
  -- The event of a report, with its fingerprint.
  unfoldable pub event_for : Report F → KafkaLagEvent F
  event_for r =
      let plain = event_of p r.now r.id r.event_type r.severity r.status r.description in
      record plain { fingerprint = generate_fingerprint codec p plain }

  abbrev pub key_for : Report F → Str
  key_for r = dedupe_key (event_for r).fingerprint

  module _ (unmarshal : Str → Result ℕ (KafkaLagEvent F)) where
    -- Entries carry the events of reports, one each, in their order.
    abbrev pub Carries : List (Str × StreamEntry) → List (Report F) → Type 0
    Carries [] [] = Unit
    Carries [] (r ∷ rs) = ⊥
    Carries (entry ∷ entries) [] = ⊥
    Carries (entry ∷ entries) (r ∷ rs) =
        (unmarshal entry.1.event ≡ ok (event_for r)) × Carries entries rs

module _ {F S : Type 0} (codec : Codec F) (redis : Redis S) (p : EventPublisher) where
  abbrev pub publish_report : Report F → S → S
  publish_report r s =
      (publish_partition_event codec redis p r.now r.id r.event_type r.severity r.status
        r.description s).1

  unfoldable pub publish_all : List (Report F) → S → S
  publish_all [] s = s
  publish_all (r ∷ rs) s = publish_all rs (publish_report r s)

  module _ (unmarshal : Str → Result ℕ (KafkaLagEvent F)) where
    -- The event of a report survives JSON, Redis sets its key, and adds it at the first attempt.
    abbrev pub IsAccepted : Report F → S → Type 0
    IsAccepted r s =
        (payload : Str) × (id : Str) × (codec.marshal (event_for codec p r) ≡ ok payload)
        × (unmarshal payload ≡ ok (event_for codec p r))
        × ((redis.set_nx r.now (key_for codec p r) p.config.de_dupe_window s).0 ≡ ok true)
        × ((redis.x_add r.now p.config.stream_key (stream_entry (event_for codec p r) payload)
              (redis.set_nx r.now (key_for codec p r) p.config.de_dupe_window s).1).0
            ≡ ok id)

    abbrev pub AllAccepted : List (Report F) → S → Type 0
    AllAccepted [] s = Unit
    AllAccepted (r ∷ rs) s = IsAccepted r s × AllAccepted rs (publish_report r s)

module _ {F H : Type 0} (handlers : List (EventHandler F H)) where
  -- The handlers after events, in their order.
  unfoldable pub deliver : List (KafkaLagEvent F) → H → H
  deliver [] h = h
  deliver (e ∷ es) h = deliver es (run_handlers handlers e h)
