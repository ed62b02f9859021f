-- ===== src/Rca/Publisher.antt =====
-- internal/publisher/publisher.go: `EventPublisher`. Redis, MD5, JSON and UUIDs are parameters.
pub mod Retry
pub mod Dedup
use lag_radar.Base.{
  ℕ, zero, suc, Bool, true, false, not, List, [], ◌∷◌, ◌++◌, Option, none, some, if◌then◌else◌,
}
use lag_radar.Base.Int.{ℤ}
use lag_radar.Base.Text.{Str, codes, colon, itoa}
use lag_radar.Base.Clock.{Time, Duration, truncate, unix}
use lag_radar.Base.Result.{Result, ok, err}
use lag_radar.Collector.Types.{PartitionConsumerStatus}
use lag_radar.Rca.Events.{
  EventSeverity, EventType, event_type_name, source_lag_radar, Description, KafkaLagEvent,
  PublisherConfig,
}

-- An entry of the stream: the values that `XAdd` is given.
pub record StreamEntry : Type 0 where
  pub event : Str
  pub event_type : EventType
  pub severity : EventSeverity
  pub cluster : Str
  pub group_id : Str
  pub topic : Str
  pub partition : Str
  pub timestamp : ℤ

-- The calls of the Redis client, on a state `S` of the server, at a time. An error is a number.
pub record Redis (S : Type 0) : Type 0 where
  pub set_nx : Time → Str → Duration → S → Result ℕ Bool × S
  pub x_add : Time → Str → StreamEntry → S → Result ℕ Str × S

-- The libraries that the publisher calls: `%x` of `md5.Sum`, and `json.Marshal` of an event.
pub record Codec (F : Type 0) : Type 0 where
  pub md5_hex : Str → Str
  pub marshal : KafkaLagEvent F → Result ℕ Str

-- The fields of `EventPublisher`. One that is disabled has no other.
pub record EventPublisher : Type 0 where
  pub enabled : Bool
  pub cluster_name : Str
  pub config : PublisherConfig

pub data PublishError : Type 0 where
  marshal_failed : ℕ → PublishError
  publish_failed : ℕ → Option ℕ → PublishError

abbrev with_colon : Str → Str → Str
with_colon a b = a ++ (colon ∷ b)

module _ {F : Type 0} where
  -- `generateFingerprint`
  unfoldable pub generate_fingerprint : Codec F → EventPublisher → KafkaLagEvent F → Str
  generate_fingerprint codec p e =
      let window = itoa (unix (truncate e.timestamp p.config.de_dupe_window)) in
      let place = with_colon e.topic (with_colon (itoa e.partition) window) in
      codec.md5_hex (
        with_colon e.source
          (with_colon (event_type_name e.event_type) (with_colon e.consumer_group place)))

  -- The event of a status, before its fingerprint is set.
  unfoldable pub event_of :
      EventPublisher
      → Time
      → Str
      → EventType
      → EventSeverity
      → PartitionConsumerStatus F
      → Description F
      → KafkaLagEvent F
  event_of p now id event_type severity status description = record {
    id = id;
    source = source_lag_radar;
    event_type = event_type;
    severity = severity;
    timestamp = now;
    cluster = p.cluster_name;
    description = description;
    details = record {
      window_completeness = status.window_completeness;
      health = status.health;
      status = status.status;
      lag_trend = status.lag_trend;
      is_active = status.is_active;
    };
    fingerprint = [];
    consumer_group = status.group_id;
    topic = status.topic;
    partition = status.partition;
    current_lag = status.current_lag;
    current_offset = status.current_offset;
    high_watermark = status.high_watermark;
    consumption_rate = status.consumption_rate;
    lag_change_rate = status.lag_change_rate;
    time_since_last_move = status.time_since_last_move;
  }

  unfoldable pub stream_entry : KafkaLagEvent F → Str → StreamEntry
  stream_entry e payload = record {
    event = payload;
    event_type = e.event_type;
    severity = e.severity;
    cluster = e.cluster;
    group_id = e.consumer_group;
    topic = e.topic;
    partition = itoa e.partition;
    timestamp = unix e.timestamp;
  }

abbrev pub dedupe_key : Str → Str
dedupe_key fingerprint = codes "rca:dedup:" ++ fingerprint

-- A call that returns an error, or nil, which is `none`.
abbrev pub Returns : Type 0 → Type 0
Returns S = Option PublishError × S

module _ {S : Type 0} where
  -- What an attempt's answer leads to: the end, or the next round of the loop.
  abbrev pub after_attempt : (Option ℕ → S → Returns S) → Result ℕ Str → S → Returns S
  after_attempt again (ok id) s = (none, s)
  after_attempt again (err e) s = again (some e) s

  -- The loop of at most `left` attempts to add the entry. The pauses between them are left out.
  unfoldable pub add_with_retries :
      Redis S → Time → Str → StreamEntry → ℕ → ℕ → Option ℕ → S → Returns S
  add_with_retries redis now key entry attempts zero last s =
      (some (publish_failed attempts last), s)
  add_with_retries redis now key entry attempts (suc left) last s =
      let (answer, s') = redis.x_add now key entry s in
      after_attempt (add_with_retries redis now key entry attempts left) answer s'

module _ {F S : Type 0} (codec : Codec F) (redis : Redis S) (p : EventPublisher) where
  -- The part of `PublishPartitionEvent` after the deduplication.
  unfoldable pub publish_entry : KafkaLagEvent F → Str → S → Returns S
  publish_entry e payload s =
      add_with_retries redis e.timestamp p.config.stream_key (stream_entry e payload)
        p.config.max_retries p.config.max_retries none s

  -- An error of `SetNX` is logged, and the event is published.
  abbrev pub after_dedupe : KafkaLagEvent F → Str → Result ℕ Bool → S → Returns S
  after_dedupe e payload (ok true) s = publish_entry e payload s
  after_dedupe e payload (ok false) s = (none, s)
  after_dedupe e payload (err x) s = publish_entry e payload s

  abbrev pub after_marshal : KafkaLagEvent F → Result ℕ Str → S → Returns S
  after_marshal e (err x) s = (some (marshal_failed x), s)
  after_marshal e (ok payload) s =
      let (answer, s') =
        redis.set_nx e.timestamp (dedupe_key e.fingerprint) p.config.de_dupe_window s in
      after_dedupe e payload answer s'

  -- `PublishPartitionEvent`, at the time and with the identifier that it draws.
  unfoldable pub publish_partition_event :
      Time
      → Str
      → EventType
      → EventSeverity
      → PartitionConsumerStatus F
      → Description F
      → S
      → Returns S
  publish_partition_event now id event_type severity status description s =
      let plain = event_of p now id event_type severity status description in
      let e = record plain { fingerprint = generate_fingerprint codec p plain } in
      if not p.enabled then (none, s) else after_marshal e (codec.marshal e) s
