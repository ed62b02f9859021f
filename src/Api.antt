-- ===== src/Api.antt =====
-- internal/api and the routing of cmd/monitor/main.go: requests as paths, answers as values.
pub mod Paths
pub mod Listing
pub mod Ready
use lag_radar.Base.{
  ℕ, suc, Bool, not, List, [], ◌∷◌, map, Option, none, some, length, ltb, ◌==◌, if◌then◌else◌,
}
use lag_radar.Base.Text.{Str, codes, str_eq}
use lag_radar.Base.Strings.{
  has_suffix, has_part, trim_prefix, split_slashes, split_once, join_slashes,
}
use lag_radar.Base.Map.{Map}
use lag_radar.Base.Result.{Result, ok, err}
use lag_radar.Collector.Types.{GroupStatus}
use lag_radar.Collector.State.{Collector}
use lag_radar.Collector.Cycle.{get_group_status, get_all_group_statuses, is_ready}
use lag_radar.Cluster.{
  CollectorCluster, Manager, ManagerError, GroupStatusCluster, get_cluster_group_statuses,
  get_status, get_all_statuses,
}

-- An entry of `ListClusters`. The last error of a cluster is never set.
pub record ClusterInfo : Type 0 where
  pub name : Str
  pub broker_count : ℕ
  pub group_count : ℕ

-- An entry of the aggregated status.
pub record GroupWithCluster (F : Type 0) : Type 0 where
  pub cluster : Str
  pub group : Str
  pub group_status : GroupStatus F

-- What the readiness probe tells of a cluster.
pub record Readiness : Type 0 where
  pub cluster_name : Str
  pub ready : Bool
  pub group_count : Option ℕ

-- The bodies of the answers, before they are encoded.
pub data Body (F : Type 0) : Type 0 where
  cluster_list : List ClusterInfo → Body F
  cluster_statuses : Map (GroupStatusCluster F) → Body F
  cluster_groups : List Str → Body F
  group_in_cluster : GroupStatusCluster F → Body F
  all_groups : List (GroupWithCluster F) → Body F
  group_list : List (Str × Str) → Body F
  one_group : GroupStatus F → Body F
  manager_error : ManagerError → Body F
  no_such_group : Str → Str → Body F
  group_not_found : Str → Body F
  plain_text : Str → Body F
  no_clusters : Body F
  readiness : ℕ → ℕ → List Readiness → Body F

-- The code of the status, and the body.
pub record Response (F : Type 0) : Type 0 where
  pub code : ℕ
  pub content : Body F

abbrev with_name : List Str → List (Str × Str) → List (Str × Str)
with_name (name ∷ group_id ∷ []) rest = (name, group_id) ∷ rest
with_name _ rest = rest

module _ {F : Type 0} where
  -- `writeJSON`, `http.Error` and the JSON answers with an error.
  abbrev pub json_ok : Body F → Response F
  json_ok b = record { code = 200; content = b }

  abbrev pub bad_request : Str → Response F
  bad_request message = record { code = 400; content = plain_text message }

  abbrev pub not_found_json : Body F → Response F
  not_found_json b = record { code = 404; content = b }

  abbrev pub invalid_path : Response F
  invalid_path = bad_request (codes "Invalid path")

  abbrev statuses_response : Result ManagerError (Map (GroupStatusCluster F)) → Response F
  statuses_response (err e) = not_found_json (manager_error e)
  statuses_response (ok statuses) = json_ok (cluster_statuses statuses)

  abbrev pub groups_response : Result ManagerError (Map (GroupStatusCluster F)) → Response F
  groups_response (err e) = not_found_json (manager_error e)
  groups_response (ok statuses) = json_ok (cluster_groups (map (λ e. e.0) statuses))

  abbrev pub group_response :
      Str → Str → Result ManagerError (Option (GroupStatusCluster F)) → Response F
  group_response name group_id (err e) = not_found_json (manager_error e)
  group_response name group_id (ok none) = not_found_json (no_such_group group_id name)
  group_response name group_id (ok (some status)) = json_ok (group_in_cluster status)

  abbrev with_cluster :
      List Str → GroupStatus F → List (GroupWithCluster F) → List (GroupWithCluster F)
  with_cluster (name ∷ group_id ∷ []) status rest =
      record { cluster = name; group = group_id; group_status = status } ∷ rest
  with_cluster _ status rest = rest

  -- The loop over the statuses, whose keys are split at the first slash.
  unfoldable pub split_statuses : Map (GroupStatusCluster F) → List (GroupWithCluster F)
  split_statuses [] = []
  split_statuses ((key, status) ∷ statuses) =
      with_cluster (split_once key) status.group_status (split_statuses statuses)

  split_names : Map (GroupStatusCluster F) → List (Str × Str)
  split_names [] = []
  split_names ((key, status) ∷ statuses) = with_name (split_once key) (split_names statuses)

  status_found : Str → Option (GroupStatus F) → Response F
  status_found group_id none = not_found_json (group_not_found group_id)
  status_found group_id (some status) = json_ok (one_group status)

abbrev pub clusters_prefix : Str
clusters_prefix = codes "/api/v1/clusters/"

-- The parts of a path below `/api/v1/clusters/`.
unfoldable pub path_parts : Str → List Str
path_parts path = split_slashes (trim_prefix clusters_prefix path)

module _ {F H : Type 0} where
  list_infos : Map (CollectorCluster F H) → List ClusterInfo
  list_infos [] = []
  list_infos ((name, c) ∷ clusters) =
      record {
        name = name;
        broker_count = length c.cluster_config.brokers;
        group_count = length (get_all_group_statuses c.state);
      }
      ∷ list_infos clusters

  unfoldable pub list_clusters : Manager F H → Response F
  unfolding list_infos
  list_clusters m = json_ok (cluster_list (list_infos m.clusters))

  cluster_status_of : Manager F H → List Str → Response F
  cluster_status_of m (name ∷ verb ∷ parts) =
      if str_eq verb (codes "status")
      then statuses_response (get_cluster_group_statuses name m)
      else invalid_path
  cluster_status_of m _ = invalid_path

  -- `GetClusterStatus`
  unfoldable pub get_cluster_status : Manager F H → Str → Response F
  unfolding cluster_status_of
  get_cluster_status m path = cluster_status_of m (path_parts path)

  cluster_groups_of : Manager F H → List Str → Response F
  cluster_groups_of m (name ∷ verb ∷ parts) =
      if str_eq verb (codes "groups")
      then groups_response (get_cluster_group_statuses name m)
      else invalid_path
  cluster_groups_of m _ = invalid_path

  -- `GetClusterGroups`
  unfoldable pub get_cluster_groups : Manager F H → Str → Response F
  unfolding cluster_groups_of
  get_cluster_groups m path = cluster_groups_of m (path_parts path)

  group_status_of : Manager F H → List Str → Response F
  group_status_of m (name ∷ verb ∷ first ∷ parts) =
      let group_id = join_slashes (first ∷ parts) in
      if str_eq verb (codes "groups")
      then group_response name group_id (get_status name group_id m)
      else invalid_path
  group_status_of m _ = invalid_path

  -- `GetClusterGroupStatus`
  unfoldable pub get_cluster_group_status : Manager F H → Str → Response F
  unfolding group_status_of
  get_cluster_group_status m path = group_status_of m (path_parts path)

  unfoldable pub get_all_groups_across_clusters : Manager F H → Response F
  get_all_groups_across_clusters m = json_ok (all_groups (split_statuses (get_all_statuses m)))

  unfoldable pub get_all_groups_list : Manager F H → Response F
  unfolding split_names
  get_all_groups_list m = json_ok (group_list (split_names (get_all_statuses m)))

  ready_infos : Map (CollectorCluster F H) → List Readiness
  ready_infos [] = []
  ready_infos ((name, c) ∷ clusters) =
      record {
        cluster_name = name;
        ready = is_ready c.state;
        group_count =
            if is_ready c.state then some (length (get_all_group_statuses c.state)) else none;
      }
      ∷ ready_infos clusters

  unfoldable pub count_ready : Map (CollectorCluster F H) → ℕ
  count_ready [] = 0
  count_ready ((name, c) ∷ clusters) =
      let rest = count_ready clusters in if is_ready c.state then suc rest else rest

  -- `ClusterReadyHandler`
  unfoldable pub cluster_ready : Manager F H → Response F
  unfolding ready_infos
  cluster_ready m =
      let total = length m.clusters in
      let count = count_ready m.clusters in
      if total == 0 then record { code = 503; content = no_clusters } else record {
        code = if ltb 0 count then 200 else 503;
        content = readiness count total (ready_infos m.clusters);
      }

  -- `GroupStatusHandler` on the part of the path after `/api/v1/status/`.
  unfoldable pub group_status : Collector F H → Str → Response F
  unfolding status_found
  group_status c [] = bad_request (codes "Group ID required")
  group_status c (x ∷ group_id) = status_found (x ∷ group_id) (get_group_status (x ∷ group_id) c)

  -- cmd/monitor/main.go: the handler of the paths below `/api/v1/clusters/`.
  unfoldable pub route_clusters : Manager F H → Str → Response F
  route_clusters m path =
      if has_suffix (codes "/status") path
      then get_cluster_status m path
      else if has_suffix (codes "/groups") path
      then get_cluster_groups m path
      else if has_part (codes "/groups/") path
      then get_cluster_group_status m path
      else record { code = 404; content = plain_text (codes "404 page not found") }
