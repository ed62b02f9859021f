-- ===== src/Tests/Monitor.antt =====
-- A Kafka library that refuses one list of brokers, and a start with two clusters.
use lag_radar.Base.{
  ℕ, ◌↔◌, ◌⊎◌, IsSome, ◌*◌, ◌≡◌, refl, true, false, List, [], ◌∷◌, ◌++◌, some, none, if◌then◌else◌,
}
use lag_radar.Base.Int.{ℤ, pos, negsuc}
use lag_radar.Base.Text.{Str, codes, str_eq}
use lag_radar.Base.Clock.{second}
use lag_radar.Base.Map.{insert, lookup}
use lag_radar.Base.Result.{ok, err}
use lag_radar.Cluster.{ConfigCluster, Manager, join_brokers, new_cluster, add_cluster, get_cluster}
use lag_radar.Kafka.{ClientConfig, Description, Library, with_defaults, new_client}
use lag_radar.Kafka.Handles.{made, closed, closing, new_client-closed}
use lag_radar.Rca.Events.{PublisherConfig}
use lag_radar.Cluster.Helper.{Outside, Hooked, cluster_world, cluster_client}
use lag_radar.Monitor.{Environment, FileConfig, new_manager, choose_file, start}
use lag_radar.Monitor.Clients.{BothMade, add_cluster-clients}
use lag_radar.Monitor.Startup.{first_usable, fresh, start-clusters}
use lag_radar.Base.Strings.{has_part, has_prefix}
use lag_radar.Collector.Window.{cleanup_old_windows}
use lag_radar.Collector.Cycle.{cleanup_tick, running, step}
use lag_radar.Cluster.{CollectorCluster, stop}
use lag_radar.Monitor.{add_configured, add_all}
use lag_radar.Collector.State.{new_with_client}
use lag_radar.Monitor.Server.{metrics_handler, api_routes, start_http_server}
use lag_radar.Monitor.Server.Start.{start_http_server_lem}
use lag_radar.Monitor.System.{with_state}
use lag_radar.Monitor.Main.{wakes, still, shut_down, interrupted}
use lag_radar.Monitor.Main.Closed.{LeavesClosed, Main-LeavesClosed}
use lag_radar.Tests.{whole, orders, billing, local}

abbrev two_described : List Description
two_described =
    record { group_id = orders; error_code = pos 0; members = codes "a" ∷ codes "b" ∷ [] }
    ∷ record { group_id = billing; error_code = pos 7; members = codes "c" ∷ [] }
    ∷ []

-- It makes an admin client, but no consumer.
abbrev library : Library Str ℕ
library = record {
  new_admin = λ brokers ms. ok brokers;
  new_consumer = λ brokers group. err 3;
  admin_groups = λ a. ok (orders ∷ billing ∷ []);
  admin_offsets = λ a group. ok [];
  watermarks = λ c topic partition ms. err 1;
  descriptions = λ a groups. ok two_described;
  err_no_error = pos 0;
}

abbrev client_config : ClientConfig
client_config = record { brokers = codes "a:9092"; consumer_group = []; request_timeout = pos 0 }

new_client-closed_example :
    let (answer, log) = new_client library client_config in
    made (log ++ closing answer) ≡ closed (log ++ closing answer)
new_client-closed_example = new_client-closed library client_config

-- There is no client for the brokers `down:1`, and no Redis.
abbrev outside : Outside ℤ Str ℕ ℕ
outside = record {
  library = record library {
    new_admin = λ brokers ms. if str_eq brokers (codes "down:1") then err 1 else ok brokers;
    new_consumer = λ brokers group. ok 0;
  };
  offset_invalid = negsuc 1000;
  codec = record { md5_hex = λ s. s; marshal = λ e. ok [] };
  redis = record {
    set_nx = λ now key ttl s. (ok true, s);
    x_add = λ now stream entry s. (ok [], s);
  };
  server = 0;
  ping = some 5;
  readings = λ name n. record { now = pos (n * second); id_of = λ kind. [] };
}

abbrev rca : PublisherConfig
rca = record { enabled = true; stream_key = orders; max_retries = 2; de_dupe_window = pos second }

abbrev named : List Str → ConfigCluster ℤ
named brokers = record { name = local; enabled = true; brokers = brokers; collector = none }

abbrev file : FileConfig ℤ
file = record {
  window_size = 2;
  min_window_size = 2;
  check_interval = codes "30s";
  stalled_consumption_rate = pos 1;
  rapid_lag_increase_rate = pos 10;
  lag_trend_threshold = pos 1;
  inactivity_timeout = codes "60s";
  max_concurrency = 1;
  http_address = codes ":8080";
  metrics_path = codes "/metrics";
  kafka_brokers = [];
  clusters = named (codes "down:1" ∷ []) ∷ named (codes "up:1" ∷ []) ∷ [];
  api_address = [];
  publisher = rca;
}

abbrev env : Environment ℤ Str ℕ ℕ
env = record {
  config_file = [];
  file_exists = λ path. str_eq path (codes "config.dev.yaml");
  load_config = λ path. ok file;
  parse_duration = λ s. ok (pos (30 * second));
  outside = outside;
}

-- The second cluster of the name is the first one that can be made.
start-clusters_example :
    (m : Manager ℤ (Hooked ℕ)) × (start env ≡ ok m)
    × (get_cluster local m
        ≡ some (
            new_cluster
              (cluster_world outside rca)
              (fresh env file (pos (30 * second)) (pos (30 * second)))
              (named (codes "up:1" ∷ []))))
unfolding first_usable choose_file join_brokers str_eq cluster_world new_client with_defaults
    cluster_client
start-clusters_example =
    start-clusters env local {path = codes "config.dev.yaml"} refl refl refl refl refl

abbrev up : ConfigCluster ℤ
up = named (codes "up:1" ∷ [])

-- Redis does not answer, and the cluster is added all the same.
add_cluster-clients_example :
    (((add_cluster (cluster_world outside rca) up (fresh env file (pos second) (pos second))).0
        ≡ none)
      ↔ BothMade outside rca up (fresh env file (pos second) (pos second)))
    × (((new_cluster
            (cluster_world outside rca)
            (fresh env file (pos second) (pos second))
            up).setup.evaluation_hook
          ≡ none)
        ↔ ((true ≡ false) ⊎ IsSome outside.ping))
unfolding get_cluster lookup new_manager
add_cluster-clients_example =
    add_cluster-clients outside rca up (fresh env file (pos second) (pos second)) refl refl

abbrev started_manager : Manager ℤ (Hooked ℕ)
started_manager =
    add_configured (cluster_world outside rca) file.clusters
      (fresh env file (pos (30 * second)) (pos (30 * second)))

begins : start env ≡ ok started_manager
unfolding start choose_file str_eq add_all
begins = refl

abbrev up_cluster : CollectorCluster ℤ (Hooked ℕ)
up_cluster =
    new_cluster (cluster_world outside rca) (fresh env file (pos (30 * second)) (pos (30 * second)))
      up

has_up : get_cluster local started_manager ≡ some up_cluster
unfolding get_cluster add_configured add_cluster lookup insert str_eq new_manager join_brokers
    cluster_world new_client with_defaults cluster_client
has_up = refl

cleans :
    step up_cluster.setup local cleanup_tick (running up_cluster.state) ≡ running up_cluster.state
unfolding step new_cluster new_with_client cleanup_old_windows
cleans = refl

registers :
    start_http_server file.metrics_path started_manager
    ≡ some (
        (codes "/metrics", metrics_handler)
        ∷ api_routes (get_cluster (codes "default") started_manager))
unfolding get_cluster add_configured add_cluster lookup insert str_eq new_manager join_brokers
    cluster_world new_client with_defaults cluster_client api_routes has_part has_prefix
registers = start_http_server_lem file.metrics_path started_manager (refl, refl, refl, refl, refl)

-- The cleanup of a cluster wakes its loop once, and then a signal comes.
Main-LeavesClosed_example :
    LeavesClosed
      (shut_down (stop (with_state local up_cluster up_cluster.state started_manager)))
      local
unfolding choose_file str_eq
Main-LeavesClosed_example = Main-LeavesClosed env local (
    interrupted {path = codes "config.dev.yaml"} refl refl begins registers
      (wakes local cleanup_tick still has_up cleans))
