-- ===== src/Rca/Consumer.antt =====
-- internal/rca/consumer/consumer.go: `Consumer`, over a Redis stream, the decoding of events and the
-- handlers.
pub mod Batch
use lag_radar.Base.{ℕ, zero, suc, List, [], ◌∷◌, Option, none, some, if◌then◌else◌}
use lag_radar.Base.Int.{ℤ}
use lag_radar.Base.Text.{Str, codes, str_eq}
use lag_radar.Base.Clock.{Duration}
use lag_radar.Base.Map.{Map, lookup}
use lag_radar.Base.Result.{Result, ok, err}
use lag_radar.Rca.Events.{KafkaLagEvent}

-- internal/rca/config.go
pub record ConsumerConfig : Type 0 where
  pub consumer_group : Str
  pub stream_key : Str
  pub consumer_name : Str
  pub batch_size : ℤ
  pub block_timeout : Duration

-- A value of a message: a string, or of another type.
pub data FieldValue : Type 0 where
  string : Str → FieldValue
  other_type : FieldValue

pub record StreamMessage : Type 0 where
  pub message_id : Str
  pub values : Map FieldValue

-- The answer of `XREADGROUP`: the messages of each stream, nothing, or an error.
pub data ReadAnswer : Type 0 where
  messages : List (Str × List StreamMessage) → ReadAnswer
  nothing_new : ReadAnswer
  read_error : Str → ReadAnswer

-- The calls of the Redis client on a state `S` of the server. An error is its text, and `none` is no
-- error.
pub record Streams (S : Type 0) : Type 0 where
  pub x_group_create : Str → Str → Str → S → Option Str × S
  pub x_read_group : ConsumerConfig → S → ReadAnswer × S
  pub x_ack : Str → Str → Str → S → Option Str × S

pub data ConsumerError : Type 0 where
  missing_event_data : Str → ConsumerError
  unmarshal_event_failed : ℕ → ConsumerError
  create_group_failed : Str → ConsumerError
  read_failed : Str → ConsumerError
  context_done : ConsumerError

-- An `EventHandler` works on a state `H`; `none` is no error.
abbrev pub EventHandler : Type 0 → Type 0 → Type 0
EventHandler F H = KafkaLagEvent F → H → Option ℕ × H

-- `msg.Values["event"].(string)`
abbrev pub string_of : Option FieldValue → Option Str
string_of none = none
string_of (some (string s)) = some s
string_of (some other_type) = none

-- The text that `Start` compares the error of the group's creation with.
abbrev pub expected_error : Str
expected_error = codes "[Error] Consumer Group name already exists"

module _ {F H : Type 0} where
  -- The loop over the handlers; their errors are logged.
  unfoldable pub run_handlers : List (EventHandler F H) → KafkaLagEvent F → H → H
  run_handlers [] event h = h
  run_handlers (handler ∷ handlers) event h = run_handlers handlers event (handler event h).1

module _ {F H : Type 0} (unmarshal : Str → Result ℕ (KafkaLagEvent F)) where
  handle_decoded :
      List (EventHandler F H) → Result ℕ (KafkaLagEvent F) → H → Option ConsumerError × H
  handle_decoded handlers (err e) h = (some (unmarshal_event_failed e), h)
  handle_decoded handlers (ok event) h = (none, run_handlers handlers event h)

  handle_text : List (EventHandler F H) → Str → Option Str → H → Option ConsumerError × H
  unfolding handle_decoded
  handle_text handlers id none h = (some (missing_event_data id), h)
  handle_text handlers id (some payload) h = handle_decoded handlers (unmarshal payload) h

  unfoldable pub process_message :
      List (EventHandler F H) → StreamMessage → H → Option ConsumerError × H
  unfolding handle_text
  process_message handlers m h =
      handle_text handlers m.message_id (string_of (lookup (codes "event") m.values)) h

module _ {S : Type 0} (redis : Streams S) (config : ConsumerConfig) where
  -- A message that fails is logged and left; one that does not is acknowledged.
  abbrev pub acknowledge_unless : Option ConsumerError → Str → S → S
  acknowledge_unless (some e) id s = s
  acknowledge_unless none id s = (redis.x_ack config.stream_key config.consumer_group id s).1

module _ {F S H : Type 0} (redis : Streams S) (unmarshal : Str → Result ℕ (KafkaLagEvent F))
    (config : ConsumerConfig) where
  unfoldable pub process_messages : List (EventHandler F H) → List StreamMessage → S × H → S × H
  process_messages handlers [] (s, h) = (s, h)
  process_messages handlers (m ∷ ms) (s, h) =
      let (failed, h') = process_message unmarshal handlers m h in
      process_messages handlers ms (acknowledge_unless redis config failed m.message_id s, h')

  unfoldable pub process_streams :
      List (EventHandler F H) → List (Str × List StreamMessage) → S × H → S × H
  process_streams handlers [] state = state
  process_streams handlers (stream ∷ streams) state =
      process_streams handlers streams (process_messages handlers stream.1 state)

  after_read : List (EventHandler F H) → ReadAnswer → S × H → Option ConsumerError × (S × H)
  after_read handlers (messages streams) state = (none, process_streams handlers streams state)
  after_read handlers nothing_new state = (none, state)
  after_read handlers (read_error e) state = (some (read_failed e), state)

  unfoldable pub consume_batch : List (EventHandler F H) → S × H → Option ConsumerError × (S × H)
  unfolding after_read
  consume_batch handlers (s, h) =
      let (answer, s') = redis.x_read_group config s in after_read handlers answer (s', h)

  -- The loop of `Start`, with the batches that are read before the context is done. An error of a batch
  -- is logged, and the loop goes on.
  unfoldable pub consume_loop : List (EventHandler F H) → ℕ → S × H → ConsumerError × (S × H)
  consume_loop handlers zero state = (context_done, state)
  consume_loop handlers (suc n) state = consume_loop handlers n (consume_batch handlers state).1

  after_create : List (EventHandler F H) → ℕ → Option Str → S × H → ConsumerError × (S × H)
  unfolding consume_loop
  after_create handlers n none state = consume_loop handlers n state
  after_create handlers n (some e) state =
      let consumed = consume_loop handlers n state in
      if str_eq e expected_error then consumed else (create_group_failed e, state)

  unfoldable pub start : List (EventHandler F H) → ℕ → S × H → ConsumerError × (S × H)
  unfolding after_create
  start handlers n (s, h) =
      let (failed, s') =
        redis.x_group_create config.stream_key config.consumer_group (codes "0") s in
      after_create handlers n failed (s', h)
