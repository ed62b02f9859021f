-- ===== src/Tests/Api.antt =====
-- A manager of two clusters, and a group whose name has a slash.
use lag_radar.Base.{ℕ, ◌≡◌, refl, true, false, [], ◌∷◌, ◌++◌, some, none, arith}
use lag_radar.Base.Int.{ℤ, pos}
use lag_radar.Base.Text.{Str, codes, str_eq}
use lag_radar.Base.Strings.{NoSlash, has_suffix, has_part, has_prefix, split_slashes, join_slashes}
use lag_radar.Base.Map.{Distinct, lookup}
use lag_radar.Collector.Types.{GroupStatus}
use lag_radar.Collector.State.{Collector}
use lag_radar.Collector.Cycle.{get_all_group_statuses}
use lag_radar.Collector.Group.{new_group}
use lag_radar.Cluster.{CollectorCluster, Manager, get_cluster, get_cluster_group_statuses}
use lag_radar.Cluster.Union.{AllPlain}
use lag_radar.Api.{groups_response, group_status}
use lag_radar.Api.Paths.{group_path}
use lag_radar.Monitor.Server.{
  Mux, metrics_handler, api_routes, start_http_server, response, redirect_to, clean_path, serve,
}
use lag_radar.Monitor.Main.{still}
use lag_radar.Monitor.Server.Start.{start_http_server_lem}
use lag_radar.Monitor.Server.Routes.{serve-group_path, serve-legacy_path}
use lag_radar.Tests.{whole, small, billing, local}

-- A group name that ends as the path of a query does.
abbrev odd_group : Str
odd_group = codes "etl/groups"

abbrev status : GroupStatus ℤ
status = new_group odd_group 1 (pos 0) 2

abbrev collecting : Collector ℤ ℕ
collecting = record {
  windows = [];
  status_store = (odd_group, status) ∷ [];
  has_collected = true;
  hook_state = 0;
  written = [];
}

abbrev idle : Collector ℤ ℕ
idle = record collecting { status_store = []; has_collected = false }

abbrev cluster_of : Str → Collector ℤ ℕ → CollectorCluster ℤ ℕ
cluster_of name c = record {
  cluster_name = name;
  setup = record { config = small; evaluation_hook = none; offset_invalid = pos 0 };
  state = c;
  cluster_config = record { name = name; enabled = true; brokers = []; collector = none };
}

abbrev two : Manager ℤ ℕ
two = record {
  clusters = (local, cluster_of local idle) ∷ (billing, cluster_of billing collecting) ∷ [];
  global_config = small;
  effects = [];
}

billing-NoSlash : NoSlash billing
billing-NoSlash = ground arith

local-NoSlash : NoSlash local
local-NoSlash = ground arith

two-Distinct : Distinct two.clusters
unfolding lookup str_eq
two-Distinct = (refl, (refl, tt))

two-AllPlain : AllPlain two.clusters
unfolding lookup get_all_group_statuses
two-AllPlain = ((local-NoSlash, tt), ((billing-NoSlash, (refl, tt)), tt))

-- A manager with the cluster of the legacy path.
abbrev with_default : Manager ℤ ℕ
with_default = record two {
  clusters = (codes "default", cluster_of (codes "default") collecting) ∷ two.clusters;
}

abbrev metrics_path : Str
metrics_path = codes "/metrics"

abbrev routes : Mux
routes = (metrics_path, metrics_handler) ∷ api_routes (get_cluster (codes "default") with_default)

registers : start_http_server metrics_path with_default ≡ some routes
unfolding api_routes get_cluster has_part has_prefix lookup str_eq
registers = start_http_server_lem metrics_path with_default (refl, refl, refl, refl, refl)

-- A configuration that leaves the metrics path out.
start_http_server_lem_example : start_http_server [] with_default ≡ none
unfolding api_routes get_cluster has_part has_prefix lookup str_eq
start_http_server_lem_example = start_http_server_lem [] with_default (refl, refl, refl, refl, refl)

-- The group's name has a slash, and the path of its status ends as that of the groups does.
serve-group_path_example :
    serve routes two (group_path billing odd_group)
    ≡ response (groups_response (get_cluster_group_statuses billing two))
unfolding has_suffix str_eq clean_path split_slashes join_slashes has_part has_prefix
serve-group_path_example =
    serve-group_path metrics_path (refl, refl, refl, refl, refl) refl with_default registers two
      billing odd_group refl billing-NoSlash refl (λ e. ground arith)

serve-legacy_path_example :
    serve routes with_default (codes "/api/v1/status/" ++ odd_group)
    ≡ response (group_status collecting odd_group)
unfolding get_cluster lookup has_suffix str_eq clean_path split_slashes join_slashes has_part
    has_prefix
serve-legacy_path_example =
    serve-legacy_path metrics_path (refl, refl, refl, refl, refl) refl with_default registers
      odd_group still refl refl (λ e. ground arith)

-- The status of a group whose name starts with a slash is asked for elsewhere.
unclean_redirected :
    serve routes two (group_path billing (codes "/etl"))
    ≡ redirect_to (group_path billing (codes "etl"))
unfolding serve clean_path split_slashes join_slashes has_suffix str_eq
unclean_redirected = refl
