-- ===== src/Rca/Publisher/Dedup.antt =====
-- The deduplication of `PublishPartitionEvent`, over a Redis whose `SETNX` keeps a key for its time.
use lag_radar.Base.{
  ◌≡◌, refl, ap, Bool, true, false, Option, none, some, zero, suc, ℕ, Bool-cases, inl, inr,
}
use lag_radar.Base.Int.{◌+ℤ◌, ◌≤ℤ◌, ltb_ℤ}
use lag_radar.Base.Text.{Str}
use lag_radar.Base.Clock.{Time, Duration, truncate, unix}
use lag_radar.Base.Result.{ok, Result-cases}
use lag_radar.Collector.Types.{PartitionConsumerStatus}
use lag_radar.Rca.Events.{EventSeverity, EventType, Description, KafkaLagEvent}
use lag_radar.Rca.Publisher.{
  StreamEntry, Redis, Codec, EventPublisher, publish_failed, generate_fingerprint, event_of,
  stream_entry, dedupe_key, add_with_retries, publish_entry, publish_partition_event,
}
use lag_radar.Rca.Publisher.Retry.{AllFail, retries_fail}

-- What the publisher relies on of Redis: `held s k t` says that the key `k` exists at the time `t` if
-- nothing is written from the state `s` on.
pub record IsRedis {S : Type 0} (redis : Redis S) (held : S → Str → Time → Bool) : Type 0 where
  -- If `SETNX` answers without an error for a key that exists, it says that the key is not set, and
  -- nothing changes.
  pub set_nx_held :
      (now : Time) (key : Str) (ttl : Duration) (s : S) {set : Bool}
      → held s key now ≡ true
      → (redis.set_nx now key ttl s).0 ≡ ok set
      → redis.set_nx now key ttl s ≡ (ok false, s)
  -- A key that is set exists until its time is over.
  pub set_nx_new :
      (now later : Time) (key : Str) (ttl : Duration) (s : S)
      → (redis.set_nx now key ttl s).0 ≡ ok true
      → now ≤ℤ later
      → ltb_ℤ later (now +ℤ ttl) ≡ true
      → held (redis.set_nx now key ttl s).1 key later ≡ true
  -- Adding to a stream leaves the keys that are set.
  pub x_add_held :
      (now later : Time) (stream key : Str) (entry : StreamEntry) (s : S)
      → held s key later ≡ true
      → held (redis.x_add now stream entry s).1 key later ≡ true

module _ {F S : Type 0} (codec : Codec F) (redis : Redis S) (held : S → Str → Time → Bool)
    (laws : IsRedis redis held) where
  add_with_retries-held :
      (now later : Time) (stream key : Str) (entry : StreamEntry) (attempts left : ℕ)
      (last : Option ℕ) (s : S)
      → held s key later ≡ true
      → held (add_with_retries redis now stream entry attempts left last s).1 key later ≡ true
  unfolding add_with_retries
  add_with_retries-held now later stream key entry attempts zero last s h = h
  add_with_retries-held now later stream key entry attempts (suc left) last s h =
      let result = redis.x_add now stream entry s in
      let kept = laws.x_add_held now later stream key entry s h in
      elim (Result-cases result.0) [
        | inl (id, e) ↦ rw (e, add_with_retries) kept
        | inr (x, e) ↦
            rw (e, add_with_retries)
              (add_with_retries-held now later stream key entry attempts left (some x) result.1
                kept)
      ]

  -- The key under which an event of a publisher is deduplicated.
  abbrev pub key_of :
      EventPublisher
      → Time
      → Str
      → EventType
      → EventSeverity
      → PartitionConsumerStatus F
      → Description F
      → Str
  key_of p now id kind severity status description =
      dedupe_key (generate_fingerprint codec p (event_of p now id kind severity status description))

  -- The event that a publisher encodes, with its fingerprint.
  abbrev pub encoded_event :
      EventPublisher
      → Time
      → Str
      → EventType
      → EventSeverity
      → PartitionConsumerStatus F
      → Description F
      → KafkaLagEvent F
  encoded_event p now id kind severity status description =
      let plain = event_of p now id kind severity status description in
      record plain { fingerprint = generate_fingerprint codec p plain }

  publish-held :
      (p : EventPublisher) (now later : Time) (id : Str) (kind : EventType)
      (severity : EventSeverity) (status : PartitionConsumerStatus F) (description : Description F)
      (s : S) {payload : Str}
      → let key = key_of p now id kind severity status description in
        codec.marshal (encoded_event p now id kind severity status description) ≡ ok payload
        → p.enabled ≡ true
        → (redis.set_nx now key p.config.de_dupe_window s).0 ≡ ok true
        → now ≤ℤ later
        → ltb_ℤ later (now +ℤ p.config.de_dupe_window) ≡ true
        → held
            (publish_partition_event codec redis p now id kind severity status description s).1
            key
            later
          ≡ true
  unfolding publish_partition_event publish_entry event_of generate_fingerprint
  publish-held p now later id kind severity status description s {payload} marshals on new after
        before =
      let key = key_of p now id kind severity status description in
      let plain = event_of p now id kind severity status description in
      let e = record plain { fingerprint = generate_fingerprint codec p plain } in
      let kept = laws.set_nx_new now later key p.config.de_dupe_window s new after before in
      rw (on, marshals, new)
        (add_with_retries-held now later p.config.stream_key key (stream_entry e payload)
          p.config.max_retries p.config.max_retries none _ kept)

  publish_of_held :
      (p : EventPublisher) (now : Time) (id : Str) (kind : EventType) (severity : EventSeverity)
      (status : PartitionConsumerStatus F) (description : Description F) (s : S) {payload : Str}
      {set : Bool}
      → let key = key_of p now id kind severity status description in
        codec.marshal (encoded_event p now id kind severity status description) ≡ ok payload
        → held s key now ≡ true
        → (redis.set_nx now key p.config.de_dupe_window s).0 ≡ ok set
        → publish_partition_event codec redis p now id kind severity status description s
          ≡ (none, s)
  unfolding publish_partition_event event_of generate_fingerprint
  publish_of_held p now id kind severity status description s marshals h answers =
      elim (Bool-cases p.enabled) [
        | inl on ↦ rw (on, marshals, laws.set_nx_held now _ p.config.de_dupe_window s h answers)
        | inr off ↦ rw off
      ]

  -- Two statuses are of one partition of one group.
  abbrev pub SamePartition : PartitionConsumerStatus F → PartitionConsumerStatus F → Type 0
  SamePartition a b = (a.group_id ≡ b.group_id) × (a.topic ≡ b.topic) × (a.partition ≡ b.partition)

  -- Two times are in one window of the deduplication.
  abbrev pub SameWindow : EventPublisher → Time → Time → Type 0
  SameWindow p now later =
      unix (truncate now p.config.de_dupe_window) ≡ unix (truncate later p.config.de_dupe_window)

  key_of_same :
      (p : EventPublisher) (other : Str) (now later : Time) (id id' : Str) (kind : EventType)
      (severity severity' : EventSeverity) (a b : PartitionConsumerStatus F)
      (description description' : Description F)
      → SamePartition a b
      → SameWindow p now later
      → key_of (record p { cluster_name = other }) later id' kind severity' b description'
        ≡ key_of p now id kind severity a description
  unfolding generate_fingerprint event_of
  key_of_same p other now later id id' kind severity severity' a b description description' same
        window =
      cc (same.0, same.1, same.2, window)

  -- Two events of one type for one partition of one group, which can both be encoded, are published in
  -- the same window of the deduplication, the second before the key of the first is over. If Redis sets
  -- the key of the first, and answers the `SETNX` of the second without an error, the second is
  -- dropped: nil is returned and the server stays as the first left it. This holds also for a
  -- publisher of another cluster.
  pub second_event_dropped :
      (p : EventPublisher) (other : Str) (now later : Time) (id id' : Str) (kind : EventType)
      (severity severity' : EventSeverity) (a b : PartitionConsumerStatus F)
      (description description' : Description F) (s : S) {payload payload' : Str} {set : Bool}
      → let q = record p { cluster_name = other } in
        let first = publish_partition_event codec redis p now id kind severity a description s in
        codec.marshal (encoded_event p now id kind severity a description) ≡ ok payload
        → codec.marshal (encoded_event q later id' kind severity' b description') ≡ ok payload'
        → p.enabled ≡ true
        → (redis.set_nx now
            (key_of p now id kind severity a description)
            p.config.de_dupe_window
            s).0
          ≡ ok true
        → now ≤ℤ later
        → ltb_ℤ later (now +ℤ p.config.de_dupe_window) ≡ true
        → SamePartition a b
        → SameWindow p now later
        → (redis.set_nx later
            (key_of q later id' kind severity' b description')
            p.config.de_dupe_window
            first.1).0
          ≡ ok set
        → publish_partition_event codec redis q later id' kind severity' b description' first.1
          ≡ (none, first.1)
  second_event_dropped p other now later id id' kind severity severity' a b description description'
        s marshals marshals' on new after before same window answers =
      let kept =
        publish-held p now later id kind severity a description s marshals on new after before in
      let keys =
        key_of_same p other now later id id' kind severity severity' a b description description'
          same window in
      publish_of_held (record p { cluster_name = other }) later id' kind severity' b description' _
        marshals' (rw keys kept) answers

  publish_failing :
      (p : EventPublisher) (now : Time) (id : Str) (kind : EventType) (severity : EventSeverity)
      (status : PartitionConsumerStatus F) (description : Description F) (s : S) {payload : Str}
      → let key = key_of p now id kind severity status description in
        let e = encoded_event p now id kind severity status description in
        let set = redis.set_nx now key p.config.de_dupe_window s in
        codec.marshal e ≡ ok payload
        → p.enabled ≡ true
        → set.0 ≡ ok true
        → AllFail redis now p.config.stream_key (stream_entry e payload) p.config.max_retries set.1
        → (x : Option ℕ) × ((publish_partition_event codec redis p now id kind severity status
              description s).0
            ≡ some (publish_failed p.config.max_retries x))
  unfolding publish_partition_event publish_entry event_of generate_fingerprint
  publish_failing p now id kind severity status description s {payload} marshals on new fails =
      let plain = event_of p now id kind severity status description in
      let e = record plain { fingerprint = generate_fingerprint codec p plain } in
      let (x, result) =
        retries_fail redis now p.config.stream_key (stream_entry e payload) p.config.max_retries
          p.config.max_retries none _ fails in
      (x, rw (on, marshals, new) (ap (λ r. r.0) result))

  -- An event can be encoded, also when it is published again. If Redis sets its key and then every
  -- attempt to add it fails, an error is returned; and publishing it again in the window of its key,
  -- where Redis answers the second `SETNX` without an error, returns nil and leaves the server as it
  -- was: the event is lost.
  pub failed_event_lost :
      (p : EventPublisher) (now later : Time) (id id' : Str) (kind : EventType)
      (severity : EventSeverity) (status : PartitionConsumerStatus F) (description : Description F)
      (s : S) {payload payload' : Str} {again : Bool}
      → let key = key_of p now id kind severity status description in
        let e = encoded_event p now id kind severity status description in
        let set = redis.set_nx now key p.config.de_dupe_window s in
        codec.marshal e ≡ ok payload
        → p.enabled ≡ true
        → set.0 ≡ ok true
        → AllFail redis now p.config.stream_key (stream_entry e payload) p.config.max_retries set.1
        → now ≤ℤ later
        → ltb_ℤ later (now +ℤ p.config.de_dupe_window) ≡ true
        → SameWindow p now later
        → codec.marshal (encoded_event p later id' kind severity status description) ≡ ok payload'
        → let first =
            publish_partition_event codec redis p now id kind severity status description s in
          (redis.set_nx later
              (key_of p later id' kind severity status description)
              p.config.de_dupe_window
              first.1).0
            ≡ ok again
          → ((x : Option ℕ) × (first.0 ≡ some (publish_failed p.config.max_retries x)))
            × (publish_partition_event codec redis p later id' kind severity status description
                  first.1
                ≡ (none, first.1))
  failed_event_lost p now later id id' kind severity status description s marshals on new fails
        after before window marshals' answers =
      (
        publish_failing p now id kind severity status description s marshals on new fails,
        second_event_dropped p p.cluster_name now later id id' kind severity severity status status
            description description s marshals marshals' on new after before (refl, refl, refl)
            window answers,
      )
