-- ===== src/Tests/Delivery.antt =====
-- A stream whose entries are read once, and two events of two partitions.
use lag_radar.Base.{
  ℕ, ◌*◌, ◌≤◌, ◌≡◌, refl, ap, true, List, [], ◌∷◌, ◌++◌, map, none, inl, length, if◌then◌else◌,
  arith,
}
use lag_radar.Base.Int.{ℤ, pos}
use lag_radar.Base.Text.{Str, codes, str_eq}
use lag_radar.Base.Clock.{second, minute}
use lag_radar.Base.Result.{Result, ok, ok_injective}
use lag_radar.Collector.Evaluator.{blank_status}
use lag_radar.Rca.Events.{
  KafkaLagEvent, consumer_stopped, consumer_recovered, critical, info, cleared_lag,
}
use lag_radar.Rca.Publisher.{
  StreamEntry, Redis, Codec, EventPublisher, event_of, publish_partition_event, publish_entry,
  add_with_retries,
}
use lag_radar.Rca.Consumer.{
  ConsumerConfig, messages, nothing_new, ReadAnswer, Streams, context_done,
}
use lag_radar.Rca.Delivery.{message_of, IsStream, Report, publish_all, event_for}
use lag_radar.Rca.Service.{
  RcaConfig, Files, EventLine, line_of, ServiceFatal, consumer_error, load_config, service,
}
use lag_radar.Rca.Service.Logged.{IsGroup, service_logs_published}
use lag_radar.Tests.{whole, orders, billing, local}

abbrev Queue : Type 0
Queue = List (Str × StreamEntry)

abbrev redis : Redis Queue
redis = record {
  set_nx = λ now key ttl s. (ok true, s);
  x_add = λ now stream entry s. (ok (codes "1-0"), s ++ (codes "1-0", entry) ∷ []);
}

abbrev answer_of : Queue → ReadAnswer
answer_of [] = nothing_new
answer_of (e ∷ es) = messages ((orders, map message_of (e ∷ es)) ∷ [])

abbrev streams : Streams Queue
streams = record {
  x_group_create = λ key group from s. (none, s);
  x_read_group = λ config s. (answer_of s, []);
  x_ack = λ key group id s. (none, s);
}

abbrev config : ConsumerConfig
config = record {
  consumer_group = codes "rca";
  stream_key = orders;
  consumer_name = local;
  batch_size = pos 10;
  block_timeout = pos second;
}

abbrev publisher : EventPublisher
publisher = record {
  enabled = true;
  cluster_name = local;
  config = record {
    enabled = true;
    stream_key = orders;
    max_retries = 2;
    de_dupe_window = pos (5 * minute);
  };
}

abbrev read_whole :
    (s : Queue) → 1 ≤ length s → answer_of s ≡ messages ((orders, map message_of s) ∷ [])
read_whole [] h = absurd (omega arith)
read_whole (e ∷ es) h = refl

redis-IsStream : IsStream redis streams config (λ s. s)
redis-IsStream = record {
  set_nx_pending = λ now key ttl s. refl;
  x_add_pending =
      λ now stream entry s same added room. ap (λ i. s ++ (i, entry) ∷ []) (ok_injective added);
  x_read_pending = λ n s batch some_there few answered. (read_whole s some_there, refl);
  x_ack_pending = λ id s. refl;
}

abbrev stopped_report : Report ℤ
stopped_report = record {
  now = pos second;
  id = codes "a";
  event_type = consumer_stopped;
  severity = critical;
  status = blank_status billing orders (pos 0);
  description = cleared_lag;
}

abbrev recovered_report : Report ℤ
recovered_report = record {
  now = pos minute;
  id = codes "b";
  event_type = consumer_recovered;
  severity = info;
  status = blank_status billing orders (pos 1);
  description = cleared_lag;
}

abbrev codec : Codec ℤ
codec = record { md5_hex = λ s. s; marshal = λ e. ok e.id }

abbrev unmarshal : Str → Result ℕ (KafkaLagEvent ℤ)
unmarshal payload =
    if str_eq payload (codes "a")
    then ok (event_for codec publisher stopped_report)
    else ok (event_for codec publisher recovered_report)

abbrev published : Queue
published = publish_all codec redis publisher (stopped_report ∷ recovered_report ∷ []) []

redis-IsGroup : IsGroup streams config (λ s. s)
redis-IsGroup = record {
  x_group_create_pending = λ s new. refl;
  x_read_none = λ s emptied. (inl (ap answer_of emptied), refl);
}

abbrev rca_config : RcaConfig
rca_config = record {
  publisher = publisher.config;
  redis = record { addr = codes "localhost:6379"; password = []; db = pos 0 };
  consumer = config;
}

abbrev files : Files
files = record {
  read_file = λ path. ok path;
  expand_env = λ text. text;
  unmarshal_config = λ text. ok rca_config;
}

loaded : load_config files (codes "rca_dev.yaml") ≡ ok rca_config
unfolding load_config
loaded = refl

-- The service is interrupted after three batches.
abbrev ended : ServiceFatal × (Queue × List EventLine)
ended = service files streams unmarshal (λ redis s. none) (codes "rca_dev.yaml") 3 (published, [])

abbrev both_events : List (KafkaLagEvent ℤ)
both_events = map (event_for codec publisher) (stopped_report ∷ recovered_report ∷ [])

service_logs_published_example :
    (ended.0 ≡ consumer_error context_done) × (ended.1.1 ≡ map line_of both_events)
unfolding publish_all publish_partition_event publish_entry add_with_retries event_for event_of
    str_eq
service_logs_published_example =
    service_logs_published codec redis streams unmarshal publisher (λ s. s) files (λ redis s. none)
      (codes "rca_dev.yaml") loaded redis-IsStream redis-IsGroup refl refl refl stopped_report
      (recovered_report ∷ []) 10 2 [] []
      ((_, _, refl, refl, refl, refl), ((_, _, refl, refl, refl, refl), tt)) refl refl (omega arith)
      (omega arith) refl refl (λ e. ground arith)

kinds_logged :
    map (λ e. e.line_type) (map line_of both_events) ≡ consumer_stopped ∷ consumer_recovered ∷ []
unfolding event_for event_of
kinds_logged = refl
