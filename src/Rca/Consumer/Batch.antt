-- ===== src/Rca/Consumer/Batch.antt =====
-- What a batch does to the stream and to the handlers, and what a start does on a group that exists.
use lag_radar.Base.{
  ℕ, ◌≡◌, refl, ap, ◌∙◌, List, [], ◌∷◌, ◌++◌, Option, none, some, inl, inr, Option-cases,
}
use lag_radar.Base.Text.{Str, codes}
use lag_radar.Base.Map.{lookup}
use lag_radar.Base.Result.{Result, ok, err, Result-cases}
use lag_radar.Rca.Events.{KafkaLagEvent}
use lag_radar.Rca.Consumer.{
  ConsumerConfig, StreamMessage, messages, Streams, EventHandler, string_of, run_handlers,
  process_message, process_messages, process_streams, consume_batch,
}

-- The messages of all the streams of an answer, in their order.
unfoldable pub all_messages : List (Str × List StreamMessage) → List StreamMessage
all_messages [] = []
all_messages (stream ∷ streams) = stream.1 ++ all_messages streams

module _ {F : Type 0} (unmarshal : Str → Result ℕ (KafkaLagEvent F)) where
  abbrev ok_only : Result ℕ (KafkaLagEvent F) → Option (KafkaLagEvent F)
  ok_only (ok e) = some e
  ok_only (err x) = none

  abbrev decoded : Option Str → Option (KafkaLagEvent F)
  decoded none = none
  decoded (some payload) = ok_only (unmarshal payload)

  -- The event that a message carries, if it carries one that can be decoded.
  abbrev pub event_in : StreamMessage → Option (KafkaLagEvent F)
  event_in m = decoded (string_of (lookup (codes "event") m.values))

  abbrev with_event :
      Str → Option (KafkaLagEvent F) → List (Str × KafkaLagEvent F) → List (Str × KafkaLagEvent F)
  with_event id none rest = rest
  with_event id (some e) rest = (id, e) ∷ rest

  -- The identifiers and the events of the messages that carry one, in their order.
  unfoldable pub readable : List StreamMessage → List (Str × KafkaLagEvent F)
  readable [] = []
  readable (m ∷ ms) = with_event m.message_id (event_in m) (readable ms)

  readable-append : (ms ns : List StreamMessage) → readable (ms ++ ns) ≡ readable ms ++ readable ns
  unfolding readable
  readable-append [] ns = refl
  readable-append (m ∷ ms) ns = elim (Option-cases (event_in m)) [
    | inl unread ↦ rw (unread, readable-append ms ns)
    | inr (e, read) ↦ rw (read, readable-append ms ns)
  ]

module _ {F S : Type 0} (redis : Streams S) (config : ConsumerConfig) where
  -- The server after acknowledgements, whatever it answers to them.
  unfoldable pub ack_all : List (Str × KafkaLagEvent F) → S → S
  ack_all [] s = s
  ack_all ((id, e) ∷ done) s =
      ack_all done (redis.x_ack config.stream_key config.consumer_group id s).1

  ack_all-append :
      (xs ys : List (Str × KafkaLagEvent F)) (s : S)
      → ack_all (xs ++ ys) s ≡ ack_all ys (ack_all xs s)
  unfolding ack_all
  ack_all-append [] ys s = refl
  ack_all-append ((id, e) ∷ xs) ys s = ack_all-append xs ys _

module _ {F H : Type 0} (handlers : List (EventHandler F H)) where
  -- The handlers after events.
  unfoldable pub handle_all : List (Str × KafkaLagEvent F) → H → H
  handle_all [] h = h
  handle_all ((id, e) ∷ events) h = handle_all events (run_handlers handlers e h)

  handle_all-append :
      (xs ys : List (Str × KafkaLagEvent F)) (h : H)
      → handle_all (xs ++ ys) h ≡ handle_all ys (handle_all xs h)
  unfolding handle_all
  handle_all-append [] ys h = refl
  handle_all-append ((id, e) ∷ xs) ys h = handle_all-append xs ys _

module _ {F S H : Type 0} (redis : Streams S) (unmarshal : Str → Result ℕ (KafkaLagEvent F))
    (config : ConsumerConfig) (handlers : List (EventHandler F H)) where
  -- The state after some messages.
  abbrev done : List (Str × KafkaLagEvent F) → S × H → S × H
  done events (s, h) = (ack_all redis config events s, handle_all handlers events h)

  process_messages_lem :
      (ms : List StreamMessage) (s : S) (h : H)
      → process_messages redis unmarshal config handlers ms (s, h)
        ≡ done (readable unmarshal ms) (s, h)
  unfolding process_messages process_message readable ack_all handle_all
  process_messages_lem [] s h = refl
  process_messages_lem (m ∷ ms) s h =
      elim (Option-cases (string_of (lookup (codes "event") m.values))) [
        | inl missing ↦ rw (missing, process_messages) (process_messages_lem ms s h)
        | inr (payload, there) ↦ elim (Result-cases (unmarshal payload)) [
          | inl (e, fine) ↦ rw (there, fine) (process_messages_lem ms _ _)
          | inr (x, failed) ↦ rw (there, failed) (process_messages_lem ms s h)
        ]
      ]

  process_streams_lem :
      (streams : List (Str × List StreamMessage)) (s : S) (h : H)
      → process_streams redis unmarshal config handlers streams (s, h)
        ≡ done (readable unmarshal (all_messages streams)) (s, h)
  unfolding process_streams all_messages ack_all handle_all readable
  process_streams_lem [] s h = refl
  process_streams_lem (stream ∷ streams) s h =
      let here = readable unmarshal stream.1 in
      let later = readable unmarshal (all_messages streams) in
      ap (process_streams redis unmarshal config handlers streams)
        (process_messages_lem stream.1 s h)
      ∙ process_streams_lem streams (ack_all redis config here s) (handle_all handlers here h)
      ∙ rw
          (
            readable-append unmarshal stream.1 (all_messages streams),
            ack_all-append redis config here later s,
            handle_all-append handlers here later h,
          )
          refl

  -- After a batch whose read succeeds, exactly the messages that carry an event which can be decoded have
  -- been acknowledged, in their order, whatever the handlers answer; and the handlers have been given
  -- exactly these events, in the same order.
  pub consume_batch_lem :
      (s : S) (h : H) {streams : List (Str × List StreamMessage)}
      → (redis.x_read_group config s).0 ≡ messages streams
      → let events = readable unmarshal (all_messages streams) in
        consume_batch redis unmarshal config handlers (s, h) ≡ (
          none,
          (
            ack_all redis config events (redis.x_read_group config s).1,
            handle_all handlers events h,
          ),
        )
  unfolding consume_batch
  consume_batch_lem s h read =
      rw (read, consume_batch)
        (ap (λ (t : S × H). (none, t)) (process_streams_lem _ (redis.x_read_group config s).1 h))
