-- ===== src/Rca/Delivery/Consumed.antt =====
-- What waits in the stream reaches the handlers of a consumer in a batch.
use lag_radar.Base.{
  ℕ, suc, ◌≤◌, ◌≡◌, refl, ap, ◌∙◌, true, List, [], ◌∷◌, ◌++◌, map, none, length, arith, append-nil,
  ◌≢◌,
}
use lag_radar.Base.Int.{pos}
use lag_radar.Base.Text.{Str, str_eq}
use lag_radar.Base.Map.{lookup}
use lag_radar.Base.Result.{Result}
use lag_radar.Rca.Events.{KafkaLagEvent}
use lag_radar.Rca.Publisher.{StreamEntry, Redis, Codec, EventPublisher}
use lag_radar.Rca.Consumer.{ConsumerConfig, read_error, Streams, EventHandler, consume_batch}
use lag_radar.Rca.Consumer.Batch.{all_messages, readable, ack_all, handle_all, consume_batch_lem}
use lag_radar.Rca.Delivery.{
  message_of, max_len, IsStream, Report, publish_all, event_for, AllAccepted, Carries, deliver,
}
use lag_radar.Rca.Delivery.Published.{publish_all-pending}

module _ {F S : Type 0} (codec : Codec F) (redis : Redis S) (streams : Streams S)
    (unmarshal : Str → Result ℕ (KafkaLagEvent F)) (p : EventPublisher) (config : ConsumerConfig)
    (pending : S → List (Str × StreamEntry)) (laws : IsStream redis streams config pending)
    (on : p.enabled ≡ true) {k : ℕ} (attempts : p.config.max_retries ≡ suc k)
    (one_stream : p.config.stream_key ≡ config.stream_key) where
  -- The entries of a batch, as the consumer reads them.
  handle_all-Carries :
      {H : Type 0} (handlers : List (EventHandler F H)) (entries : List (Str × StreamEntry))
      (rs : List (Report F)) (h : H)
      → Carries codec p unmarshal entries rs
      → handle_all handlers (readable unmarshal (map message_of entries)) h
        ≡ deliver handlers (map (event_for codec p) rs) h
  unfolding handle_all readable deliver message_of lookup str_eq
  handle_all-Carries handlers [] [] h carried = refl
  handle_all-Carries handlers [] (r ∷ rs) h carried = absurd carried
  handle_all-Carries handlers (entry ∷ entries) [] h carried = absurd carried
  handle_all-Carries handlers (entry ∷ entries) (r ∷ rs) h (decodes, carried) =
      rw decodes (handle_all-Carries handlers entries rs _ carried)

  ack_all-pending :
      (done : List (Str × KafkaLagEvent F)) (s : S)
      → pending (ack_all streams config done s) ≡ pending s
  unfolding ack_all
  ack_all-pending [] s = refl
  ack_all-pending ((id, e) ∷ done) s =
      ack_all-pending done (streams.x_ack config.stream_key config.consumer_group id s).1
      ∙ laws.x_ack_pending id s

  length-Carries :
      (entries : List (Str × StreamEntry)) (rs : List (Report F))
      → Carries codec p unmarshal entries rs
      → length entries ≡ length rs
  length-Carries [] [] carried = refl
  length-Carries [] (r ∷ rs) carried = absurd carried
  length-Carries (entry ∷ entries) [] carried = absurd carried
  length-Carries (entry ∷ entries) (r ∷ rs) carried =
      omega (arith, length-Carries entries rs carried.1)

  -- A batch that reads entries which carry events gives the handlers these events.
  pub consume_batch-Carries :
      {H : Type 0} (handlers : List (EventHandler F H)) (r : Report F) (rs : List (Report F))
      (entries : List (Str × StreamEntry)) (n : ℕ) (s : S) (h : H)
      → pending s ≡ entries
      → Carries codec p unmarshal entries (r ∷ rs)
      → config.batch_size ≡ pos n
      → length (r ∷ rs) ≤ n
      → ((e : Str) → (streams.x_read_group config s).0 ≢ read_error e)
      → let (returned, (s', h')) = consume_batch streams unmarshal config handlers (s, h) in
        (returned ≡ none)
        × (h' ≡ deliver handlers (map (event_for codec p) (r ∷ rs)) h)
        × (pending s' ≡ [])
  unfolding all_messages
  consume_batch-Carries handlers r rs entries n s h waiting carried batch few answered =
      let as_many : length (pending s) ≡ length (r ∷ rs) =
        ap length waiting ∙ length-Carries entries (r ∷ rs) carried in
      let (read, drained) = laws.x_read_pending n s batch (omega arith) (omega arith) answered in
      let batch_done = consume_batch_lem streams unmarshal config handlers s h read in
      let ms = map message_of (pending s) in
      let all : ms ++ [] ≡ map message_of entries = append-nil ms ∙ ap (map message_of) waiting in
      let handled : handle_all handlers (readable unmarshal (ms ++ [])) h
          ≡ deliver handlers (map (event_for codec p) (r ∷ rs)) h =
        ap (λ ms. handle_all handlers (readable unmarshal ms) h) all
        ∙ handle_all-Carries handlers entries (r ∷ rs) h carried in
      (
        ap (λ t. t.0) batch_done,
        ap (λ t. t.1.1) batch_done ∙ handled,
        ap (λ t. pending t.1.0) batch_done ∙ ack_all-pending _ _ ∙ drained,
      )

  -- Events that are accepted for a stream which the group has read to its end wait for it.
  pub publish_all-waiting :
      (rs : List (Report F)) (s : S)
      → AllAccepted codec redis p unmarshal rs s
      → pending s ≡ []
      → length rs ≤ max_len
      → (entries : List (Str × StreamEntry)) × (pending (publish_all codec redis p rs s) ≡ entries)
        × Carries codec p unmarshal entries rs
  publish_all-waiting rs s accepted emptied room =
      let no_entries : length (pending s) ≡ 0 = rw emptied refl in
      let (entries, there, carried) =
        publish_all-pending codec redis streams unmarshal p config pending laws on attempts
          one_stream rs s accepted (omega arith) in
      (entries, there ∙ ap (λ es. es ++ entries) emptied, carried)
