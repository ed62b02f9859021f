-- ===== src/Cluster/Helper.antt =====
-- internal/cluster/helper.go: `createCollectorWithRCA`, which connects a Kafka client, a publisher of
-- events and the hook of a collector; with `NewEventPublisher` and `NewLagEvaluatorWithRCA`.
use lag_radar.Base.{ℕ, suc, ◌*◌, false, not, [], Option, none, some, if◌then◌else◌}
use lag_radar.Base.Int.{ℤ, pos}
use lag_radar.Base.Text.{Str, codes}
use lag_radar.Base.Clock.{second}
use lag_radar.Base.Float.{Float64}
use lag_radar.Base.Result.{Result, ok, err}
use lag_radar.Collector.Types.{Config}
use lag_radar.Collector.State.{Hook}
use lag_radar.Rca.Events.{PublisherConfig}
use lag_radar.Rca.Publisher.{Redis, Codec, EventPublisher}
use lag_radar.Rca.Analyzer.{Analyzer, Reading, analyze_partition}
use lag_radar.Kafka.{
  ClientConfig, Library, NewError, Client, admin_failed, consumer_failed, new_client,
}
use lag_radar.Cluster.{World}

-- What the clusters ask: the Kafka library with its value `kafka.OffsetInvalid`, MD5 and JSON, a Redis
-- server and the error of a ping to it, and the readings of the analyses of a cluster, by their number.
pub record Outside (F A C S : Type 0) : Type 0 where
  pub library : Library A C
  pub offset_invalid : ℤ
  pub codec : Codec F
  pub redis : Redis S
  pub server : S
  pub ping : Option ℕ
  pub readings : Str → ℕ → Reading

-- The state of the hook of a cluster: its analyzer, and how many analyses it has made.
pub record Hooked (S : Type 0) : Type 0 where
  pub analyzer : Analyzer S
  pub analyses : ℕ

-- The configuration of the Kafka client of a cluster.
unfoldable pub cluster_client : Str → ClientConfig
cluster_client brokers = record {
  brokers = brokers;
  consumer_group = codes "lagradar_metrics_collector";
  request_timeout = pos (5 * second);
}

-- A manager asks only whether there is a client; an error keeps its number.
abbrev pub client_answer : {A C : Type 0} → Str → Result NewError (Client A C) → Result ℕ Str
client_answer brokers (ok client) = ok brokers
client_answer brokers (err (admin_failed e)) = err e
client_answer brokers (err (consumer_failed e)) = err e

abbrev connected : PublisherConfig → Str → Option ℕ → Result ℕ EventPublisher
connected config name (some e) = err e
connected config name none =
    ok (record { enabled = config.enabled; cluster_name = name; config = config })

-- `NewEventPublisher`, with the error of its ping.
unfoldable pub new_event_publisher : PublisherConfig → Str → Option ℕ → Result ℕ EventPublisher
new_event_publisher config name ping =
    if not config.enabled
    then ok (record { enabled = false; cluster_name = []; config = config })
    else connected config name ping

abbrev if_made : Result ℕ EventPublisher → Option EventPublisher
if_made (err e) = none
if_made (ok p) = some p

-- The publisher of a cluster, if it has one: RCA is enabled, and the publisher can be made.
unfoldable pub cluster_publisher : PublisherConfig → Str → Option ℕ → Option EventPublisher
cluster_publisher config name ping =
    if not config.enabled then none else if_made (new_event_publisher config name ping)

-- `NewLagEvaluatorWithRCA`
unfoldable pub new_analyzer : {S : Type 0} → S → Analyzer S
new_analyzer server = record { previous_statuses = []; last_event_time = []; server = server }

module _ {F A C S : Type 0} ⦃f : Float64 F⦄ (outside : Outside F A C S) where
  -- The hook of a publisher: `analyzePartition` at the reading of the next analysis.
  abbrev hook_of : Str → Config F → EventPublisher → Hook F (Hooked S)
  hook_of name config p status records h = record {
    analyzer =
        analyze_partition outside.codec outside.redis config p (outside.readings name h.analyses)
          status records h.analyzer;
    analyses = suc h.analyses;
  }

  abbrev hook_if : Str → Config F → Option EventPublisher → Option (Hook F (Hooked S))
  hook_if name config none = none
  hook_if name config (some p) = some (hook_of name config p)

  -- `createCollectorWithRCA`, as the manager asks it.
  unfoldable pub cluster_world : PublisherConfig → World F (Hooked S)
  cluster_world rca = record {
    new_client =
        λ brokers. client_answer brokers (new_client outside.library (cluster_client brokers)).0;
    offset_invalid = outside.offset_invalid;
    hook = λ name config. hook_if name config (cluster_publisher rca name outside.ping);
    hook_state = record { analyzer = new_analyzer outside.server; analyses = 0 };
  }
