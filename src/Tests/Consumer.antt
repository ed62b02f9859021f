-- ===== src/Tests/Consumer.antt =====
-- A stream with one message that can be read and one that cannot.
use lag_radar.Base.{ℕ, ◌+◌, true, ◌≡◌, refl, List, [], ◌∷◌, some, none}
use lag_radar.Base.Int.{ℤ, pos}
use lag_radar.Base.Text.{Str, codes, str_eq}
use lag_radar.Base.Clock.{second}
use lag_radar.Base.Map.{lookup}
use lag_radar.Base.Result.{Result, ok}
use lag_radar.Rca.Events.{KafkaLagEvent, consumer_stopped, critical, cleared_lag}
use lag_radar.Collector.Evaluator.{blank_status}
use lag_radar.Rca.Publisher.{event_of}
use lag_radar.Rca.Consumer.{
  ConsumerConfig, StreamMessage, string, other_type, messages, Streams, EventHandler, run_handlers,
  consume_batch,
}
use lag_radar.Rca.Consumer.Batch.{all_messages, readable, ack_all, handle_all, consume_batch_lem}
use lag_radar.Tests.{whole, orders, billing, local}

abbrev busy : Str
busy = codes "BUSYGROUP Consumer Group name already exists"

abbrev readable_message : StreamMessage
readable_message = record {
  message_id = codes "1-0";
  values = (codes "event", string (codes "{}")) ∷ [];
}

abbrev other_message : StreamMessage
other_message = record { message_id = codes "2-0"; values = (codes "event", other_type) ∷ [] }

-- The state is the list of the acknowledged messages, the last first. The group exists.
abbrev stream : Streams (List Str)
stream = record {
  x_group_create = λ key group from s. (some busy, s);
  x_read_group = λ config s. (messages ((orders, other_message ∷ readable_message ∷ []) ∷ []), s);
  x_ack = λ key group id s. (none, id ∷ s);
}

abbrev config : ConsumerConfig
config = record {
  consumer_group = codes "rca";
  stream_key = orders;
  consumer_name = local;
  batch_size = pos 10;
  block_timeout = pos second;
}

abbrev event : KafkaLagEvent ℤ
event =
    event_of
      (record {
        enabled = true;
        cluster_name = local;
        config = record {
          enabled = true;
          stream_key = orders;
          max_retries = 2;
          de_dupe_window = pos second;
        };
      })
      (pos 0) (codes "a") consumer_stopped critical (blank_status billing orders (pos 0))
      cleared_lag

abbrev decode : Str → Result ℕ (KafkaLagEvent ℤ)
decode payload = ok event

-- A handler that counts, and fails.
abbrev handler : EventHandler ℤ ℕ
handler e n = (some 1, n + 1)

consume_batch_lem_example :
    consume_batch stream decode config (handler ∷ []) ([], 0) ≡ (none, (codes "1-0" ∷ [], 1))
unfolding run_handlers ack_all handle_all readable all_messages lookup str_eq
consume_batch_lem_example = consume_batch_lem stream decode config (handler ∷ []) [] 0 refl
