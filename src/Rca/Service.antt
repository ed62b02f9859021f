-- ===== src/Rca/Service.antt =====
-- cmd/rca/main.go, with `LoadConfig` of internal/rca/config.go and `NewConsumer` of
-- internal/rca/consumer/consumer.go.
pub mod Logged
use lag_radar.Base.{ℕ, Bool, List, [], ◌∷◌, ◌++◌, Option, none, some}
use lag_radar.Base.Int.{ℤ}
use lag_radar.Base.Text.{Str}
use lag_radar.Base.Result.{Result, ok, err}
use lag_radar.Rca.Events.{EventSeverity, EventType, KafkaLagEvent, PublisherConfig}
use lag_radar.Rca.Consumer.{ConsumerConfig, ConsumerError, EventHandler, Streams, start}

pub record RedisConfig : Type 0 where
  pub addr : Str
  pub password : Str
  pub db : ℤ

-- `rca.Config`
pub record RcaConfig : Type 0 where
  pub publisher : PublisherConfig
  pub redis : RedisConfig
  pub consumer : ConsumerConfig

-- What `LoadConfig` calls: `os.ReadFile`, `os.ExpandEnv` and `yaml.Unmarshal`.
pub record Files : Type 0 where
  pub read_file : Str → Result ℕ Str
  pub expand_env : Str → Str
  pub unmarshal_config : Str → Result ℕ RcaConfig

pub data LoadError : Type 0 where
  read_config_failed : ℕ → LoadError
  parse_config_failed : ℕ → LoadError

abbrev parsed : Result ℕ RcaConfig → Result LoadError RcaConfig
parsed (err e) = err (parse_config_failed e)
parsed (ok config) = ok config

abbrev expanded : Files → Result ℕ Str → Result LoadError RcaConfig
expanded files (err e) = err (read_config_failed e)
expanded files (ok data_read) = parsed (files.unmarshal_config (files.expand_env data_read))

unfoldable pub load_config : Files → Str → Result LoadError RcaConfig
load_config files path = expanded files (files.read_file path)

-- The fields of a `Consumer` besides its client.
pub record ConsumerFields (F H : Type 0) : Type 0 where
  pub config : ConsumerConfig
  pub handlers : List (EventHandler F H)

module _ {F H : Type 0} where
  -- `NewConsumer`, with the error of its ping.
  unfoldable pub new_consumer : ConsumerConfig → Option ℕ → Result ℕ (ConsumerFields F H)
  new_consumer config (some e) = err e
  new_consumer config none = ok (record { config = config; handlers = [] })

  unfoldable pub register_handler : EventHandler F H → ConsumerFields F H → ConsumerFields F H
  register_handler handler c = record c { handlers = c.handlers ++ handler ∷ [] }

-- What a line of the log shows of an event.
pub record EventLine : Type 0 where
  pub line_type : EventType
  pub line_severity : EventSeverity
  pub line_cluster : Str
  pub line_group : Str
  pub line_topic : Str
  pub line_partition : ℤ
  pub line_lag : ℤ

module _ {F : Type 0} where
  abbrev pub line_of : KafkaLagEvent F → EventLine
  line_of e = record {
    line_type = e.event_type;
    line_severity = e.severity;
    line_cluster = e.cluster;
    line_group = e.consumer_group;
    line_topic = e.topic;
    line_partition = e.partition;
    line_lag = e.current_lag;
  }

  -- `SimpleLogHandler.HandleEvent`, on the log.
  unfoldable pub log_event : EventHandler F (List EventLine)
  log_event e log = (none, log ++ line_of e ∷ [])

-- The calls of `log.Fatalf`. They end the process, with no deferred call made.
pub data ServiceFatal : Type 0 where
  config_failed : LoadError → ServiceFatal
  consumer_failed : ℕ → ServiceFatal
  consumer_error : ConsumerError → ServiceFatal

module _ {F S : Type 0} (files : Files) (streams : Streams S)
    (unmarshal : Str → Result ℕ (KafkaLagEvent F)) (ping : RedisConfig → S → Option ℕ) where
  -- The handlers and the stream when the service ends.
  abbrev pub Ended : Type 0
  Ended = ServiceFatal × (S × List EventLine)

  with_consumer : Result ℕ (ConsumerFields F (List EventLine)) → ℕ → S × List EventLine → Ended
  with_consumer (err e) n state = (consumer_failed e, state)
  with_consumer (ok c) n state =
      let registered = register_handler log_event c in
      let (e, ended) = start streams unmarshal registered.config registered.handlers n state in
      (consumer_error e, ended)

  with_config : Result LoadError RcaConfig → ℕ → S × List EventLine → Ended
  unfolding with_consumer
  with_config (err e) n state = (config_failed e, state)
  with_config (ok config) n state =
      with_consumer (new_consumer config.consumer (ping config.redis state.0)) n state

  -- `main`, where the signal comes after some batches. `Start` never returns nil, so that each way out
  -- is a call of `log.Fatalf`.
  unfoldable pub service : Str → ℕ → S × List EventLine → Ended
  unfolding with_config
  service path n state = with_config (load_config files path) n state
