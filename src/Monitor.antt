-- ===== src/Monitor.antt =====
-- cmd/monitor/main.go: the start of the monitor, from its environment to its clusters.
pub mod Startup
pub mod Clients
pub mod Server
pub mod System
pub mod Main
use lag_radar.Base.{ℕ, Bool, true, List, [], ◌∷◌, Option, none, some, if◌then◌else◌}
use lag_radar.Base.Text.{Str, codes}
use lag_radar.Base.Clock.{Duration}
use lag_radar.Base.Result.{Result, ok, err}
use lag_radar.Collector.Types.{Config}
use lag_radar.Base.Float.{Float64}
use lag_radar.Rca.Events.{PublisherConfig}
use lag_radar.Cluster.Helper.{Outside, Hooked, cluster_world}
use lag_radar.Cluster.{ConfigCluster, Manager, ManagerError, World, add_cluster}

-- `Config`, with the settings of RCA by those of its publisher.
pub record FileConfig (F : Type 0) : Type 0 where
  pub window_size : ℕ
  pub min_window_size : ℕ
  pub check_interval : Str
  pub stalled_consumption_rate : F
  pub rapid_lag_increase_rate : F
  pub lag_trend_threshold : F
  pub inactivity_timeout : Str
  pub max_concurrency : ℕ
  pub http_address : Str
  pub metrics_path : Str
  pub kafka_brokers : List Str
  pub clusters : List (ConfigCluster F)
  pub api_address : Str
  pub publisher : PublisherConfig

-- What the start asks of its environment: the value of CONFIG_FILE, which is empty where it is not
-- set, the files that are there, their contents as YAML, the durations of package time, and what is
-- outside of the clusters.
pub record Environment (F A C S : Type 0) : Type 0 where
  pub config_file : Str
  pub file_exists : Str → Bool
  pub load_config : Str → Result ℕ (FileConfig F)
  pub parse_duration : Str → Result ℕ Duration
  pub outside : Outside F A C S

-- The calls of `log.Fatalf`.
pub data Fatal : Type 0 where
  no_config_file : Fatal
  load_failed : ℕ → Fatal
  invalid_check_interval : ℕ → Fatal
  invalid_inactivity_timeout : ℕ → Fatal
  legacy_cluster_failed : ManagerError → Fatal
  no_clusters : Fatal

abbrev possible_files : List Str
possible_files =
    codes "config.yaml"
    ∷ codes "config.dev.yaml"
    ∷ codes "config.prod.yaml"
    ∷ codes "/app/config.yaml"
    ∷ codes "/app/config.dev.yaml"
    ∷ []

abbrev first_existing : (Str → Bool) → List Str → Option Str
first_existing exists [] = none
first_existing exists (file ∷ files) =
    if exists file then some file else first_existing exists files

unfoldable pub choose_file : Str → (Str → Bool) → Option Str
choose_file [] exists = first_existing exists possible_files
choose_file (c ∷ file) exists = some (c ∷ file)

module _ {F : Type 0} where
  -- `globalCollectorConfig`
  unfoldable pub collector_config : FileConfig F → Duration → Duration → Config F
  collector_config file check_interval inactivity_timeout = record {
    window_size = file.window_size;
    min_window_size = file.min_window_size;
    check_interval = check_interval;
    stalled_consumption_rate = file.stalled_consumption_rate;
    rapid_lag_increase_rate = file.rapid_lag_increase_rate;
    lag_trend_threshold = file.lag_trend_threshold;
    inactivity_timeout = inactivity_timeout;
    max_concurrency = file.max_concurrency;
  }

  unfoldable pub legacy_cluster : List Str → ConfigCluster F
  legacy_cluster brokers = record {
    name = codes "default";
    enabled = true;
    brokers = brokers;
    collector = none;
  }

  -- The address of the server in `startHTTPServer`.
  unfoldable pub server_address : FileConfig F → Str
  server_address file = chosen file.api_address
    where
      chosen : Str → Str
      chosen [] = file.http_address
      chosen (c ∷ address) = c ∷ address

module _ {F H : Type 0} where
  -- `NewManager` and `NewManagerWithRCA`
  unfoldable pub new_manager : Config F → Manager F H
  new_manager config = record { clusters = []; global_config = config; effects = [] }

  -- The loop over the clusters; a cluster that is not added is logged.
  unfoldable pub add_configured : World F H → List (ConfigCluster F) → Manager F H → Manager F H
  add_configured world [] m = m
  add_configured world (config ∷ configs) m =
      add_configured world configs (add_cluster world config m).1

  abbrev legacy_added : Option ManagerError × Manager F H → Result Fatal (Manager F H)
  legacy_added (none, m) = ok m
  legacy_added (some e, m) = err (legacy_cluster_failed e)

  unfoldable pub add_all :
      World F H → List (ConfigCluster F) → List Str → Manager F H → Result Fatal (Manager F H)
  add_all world (config ∷ configs) brokers m = ok (add_configured world (config ∷ configs) m)
  add_all world [] (broker ∷ brokers) m =
      legacy_added (add_cluster world (legacy_cluster (broker ∷ brokers)) m)
  add_all world [] [] m = err no_clusters

module _ {F A C S : Type 0} ⦃f : Float64 F⦄ where
  with_timeout :
      Environment F A C S
      → FileConfig F
      → Duration
      → Result ℕ Duration
      → Result Fatal (Manager F (Hooked S))
  with_timeout env file check_interval (err e) = err (invalid_inactivity_timeout e)
  with_timeout env file check_interval (ok inactivity_timeout) =
      add_all (cluster_world env.outside file.publisher) file.clusters file.kafka_brokers
        (new_manager (collector_config file check_interval inactivity_timeout))

  with_interval :
      Environment F A C S → FileConfig F → Result ℕ Duration → Result Fatal (Manager F (Hooked S))
  unfolding with_timeout
  with_interval env file (err e) = err (invalid_check_interval e)
  with_interval env file (ok check_interval) =
      with_timeout env file check_interval (env.parse_duration file.inactivity_timeout)

  with_file : Environment F A C S → Result ℕ (FileConfig F) → Result Fatal (Manager F (Hooked S))
  unfolding with_interval
  with_file env (err e) = err (load_failed e)
  with_file env (ok file) = with_interval env file (env.parse_duration file.check_interval)

  with_path : Environment F A C S → Option Str → Result Fatal (Manager F (Hooked S))
  unfolding with_file
  with_path env none = err no_config_file
  with_path env (some path) = with_file env (env.load_config path)

  -- `main` up to the start of the HTTP server, with the manager that the server is given.
  unfoldable pub start : Environment F A C S → Result Fatal (Manager F (Hooked S))
  unfolding with_path
  start env = with_path env (choose_file env.config_file env.file_exists)
