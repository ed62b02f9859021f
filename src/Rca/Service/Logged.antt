-- ===== src/Rca/Service/Logged.antt =====
-- What the service logs of the events that were published before it started.
use lag_radar.Base.{
  ℕ, zero, suc, ◌≤◌, ◌≡◌, refl, sym, ap, ◌∙◌, ◌≢◌, ◌⊎◌, inl, inr, true, List, [], ◌∷◌, ◌++◌, map,
  Option, none, length, append-nil, append_assoc,
}
use mathlib.Core.Path.{subst}
use lag_radar.Base.Int.{pos}
use lag_radar.Base.Text.{Str, codes}
use lag_radar.Base.Result.{Result, ok}
use lag_radar.Rca.Events.{KafkaLagEvent}
use lag_radar.Rca.Publisher.{StreamEntry, Redis, Codec, EventPublisher}
use lag_radar.Rca.Consumer.{
  ConsumerConfig, context_done, EventHandler, nothing_new, read_error, Streams, run_handlers,
  consume_batch, consume_loop, start,
}
use lag_radar.Rca.Delivery.{max_len, IsStream, Report, publish_all, event_for, AllAccepted, deliver}
use lag_radar.Rca.Delivery.Consumed.{publish_all-waiting, consume_batch-Carries}
use lag_radar.Rca.Service.{
  RedisConfig, RcaConfig, Files, EventLine, line_of, log_event, load_config, new_consumer,
  register_handler, consumer_error, service,
}

deliver-log_event :
    {F : Type 0} (es : List (KafkaLagEvent F)) (log : List EventLine)
    → deliver (log_event ∷ []) es log ≡ log ++ map line_of es
unfolding deliver run_handlers log_event
deliver-log_event [] log = sym (append-nil log)
deliver-log_event (e ∷ es) log =
    deliver-log_event es (log ++ line_of e ∷ [])
    ∙ append_assoc log (line_of e ∷ []) (map line_of es)

-- What a consumer relies on of Redis besides the entries of a stream: a group that is created from the
-- start of the stream is given all of them, and a read of a stream that is read to its end has none.
pub record IsGroup {S : Type 0} (streams : Streams S) (config : ConsumerConfig)
    (pending : S → List (Str × StreamEntry)) : Type 0 where
  pub x_group_create_pending :
      (s : S)
      → let created =
          streams.x_group_create config.stream_key config.consumer_group (codes "0") s in
        created.0 ≡ none → pending created.1 ≡ pending s
  pub x_read_none :
      (s : S)
      → pending s ≡ []
      → let read = streams.x_read_group config s in
        ((read.0 ≡ nothing_new) ⊎ ((e : Str) × (read.0 ≡ read_error e))) × (pending read.1 ≡ [])

module _ {F S H : Type 0} (streams : Streams S) (unmarshal : Str → Result ℕ (KafkaLagEvent F))
    (config : ConsumerConfig) (pending : S → List (Str × StreamEntry))
    (laws : IsGroup streams config pending) (handlers : List (EventHandler F H)) where
  consume_batch-read :
      (s : S) (h : H)
      → let read = streams.x_read_group config s in
        (read.0 ≡ nothing_new) ⊎ ((e : Str) × (read.0 ≡ read_error e))
        → (consume_batch streams unmarshal config handlers (s, h)).1 ≡ (read.1, h)
  unfolding consume_batch
  consume_batch-read s h (inl nothing) = rw nothing refl
  consume_batch-read s h (inr (e, failed)) = rw failed refl

  -- Where nothing is left to read, the loop gives the handlers nothing more.
  consume_loop-read :
      (n : ℕ) (s : S) (h : H)
      → pending s ≡ []
      → let (returned, (s', h')) = consume_loop streams unmarshal config handlers n (s, h) in
        (returned ≡ context_done) × (h' ≡ h)
  unfolding consume_loop
  consume_loop-read zero s h emptied = (refl, refl)
  consume_loop-read (suc n) s h emptied =
      let (answer, left) = laws.x_read_none s emptied in
      subst
        (λ (t : S × H).
          let (returned, (s', h')) = consume_loop streams unmarshal config handlers n t in
          (returned ≡ context_done) × (h' ≡ h))
        (sym (consume_batch-read s h answer))
        (consume_loop-read n (streams.x_read_group config s).1 h left)

module _ {F S : Type 0} (codec : Codec F) (redis : Redis S) (streams : Streams S)
    (unmarshal : Str → Result ℕ (KafkaLagEvent F)) (p : EventPublisher)
    (pending : S → List (Str × StreamEntry)) (files : Files) (ping : RedisConfig → S → Option ℕ)
    (path : Str) {config : RcaConfig} (loaded : load_config files path ≡ ok config)
    (laws : IsStream redis streams config.consumer pending)
    (group : IsGroup streams config.consumer pending) (on : p.enabled ≡ true) {k : ℕ}
    (attempts : p.config.max_retries ≡ suc k)
    (one_stream : p.config.stream_key ≡ config.consumer.stream_key) where
  -- One or more events are published to an empty stream. Each survives JSON, Redis sets its key and adds
  -- it at the first attempt, and there are no more than a batch and the stream hold. Then the service
  -- starts with a configuration that names this stream; Redis answers its ping, creates its group and
  -- answers its first read. Whatever is answered later, once it is interrupted after one or more
  -- batches it has logged exactly one line for each of these events, in the order of their
  -- publication, and it ends with the error of the context.
  pub service_logs_published :
      (r : Report F) (rs : List (Report F)) (n batches : ℕ) (s : S) (log : List EventLine)
      → AllAccepted codec redis p unmarshal (r ∷ rs) s
      → pending s ≡ []
      → config.consumer.batch_size ≡ pos n
      → length (r ∷ rs) ≤ n
      → length (r ∷ rs) ≤ max_len
      → let published = publish_all codec redis p (r ∷ rs) s in
        let created =
          streams.x_group_create config.consumer.stream_key config.consumer.consumer_group
            (codes "0")
            published in
        ping config.redis published ≡ none
        → created.0 ≡ none
        → ((e : Str) → (streams.x_read_group config.consumer created.1).0 ≢ read_error e)
        → let (ended, (s', log')) =
            service files streams unmarshal ping path (suc batches) (published, log) in
          (ended ≡ consumer_error context_done)
          × (log' ≡ log ++ map line_of (map (event_for codec p) (r ∷ rs)))
  unfolding service new_consumer register_handler start
  service_logs_published r rs n batches s log accepted emptied batch few room pong new answered =
      let published = publish_all codec redis p (r ∷ rs) s in
      let created =
        streams.x_group_create config.consumer.stream_key config.consumer.consumer_group (codes "0")
          published in
      let (entries, waiting, carried) =
        publish_all-waiting codec redis streams unmarshal p config.consumer pending laws on attempts
          one_stream (r ∷ rs) s accepted emptied room in
      let (returned, handled, drained) =
        consume_batch-Carries codec redis streams unmarshal p config.consumer pending laws on
          attempts one_stream (log_event ∷ []) r rs entries n created.1 log
          (group.x_group_create_pending published new ∙ waiting) carried batch few answered in
      let batch_state =
        (consume_batch streams unmarshal config.consumer (log_event ∷ []) (created.1, log)).1 in
      let (last, unchanged) =
        consume_loop-read streams unmarshal config.consumer pending group (log_event ∷ []) batches
          batch_state.0 batch_state.1 drained in
      rw (loaded, pong, new)
        (
          ap consumer_error last,
          unchanged ∙ handled ∙ deliver-log_event (map (event_for codec p) (r ∷ rs)) log,
        )
