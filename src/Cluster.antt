-- ===== src/Cluster.antt =====
-- internal/cluster/manager.go: `Manager`, with the collectors that internal/cluster/helper.go makes.
pub mod Registry
pub mod Union
pub mod Helper
use lag_radar.Base.{
  ℕ, Bool, true, false, not, List, [], ◌∷◌, ◌++◌, map, Option, none, some, if◌then◌else◌,
}
use lag_radar.Base.Int.{ℤ}
use lag_radar.Base.Text.{Str, codes, str_eq}
use lag_radar.Base.Strings.{slash}
use lag_radar.Base.Map.{Map, lookup, insert, retain}
use lag_radar.Base.Result.{Result, ok, err}
use lag_radar.Collector.Types.{GroupStatus, Config}
use lag_radar.Collector.State.{Hook, Setup, Collector, new_with_client}
use lag_radar.Collector.Cycle.{get_group_status, get_all_group_statuses}

pub record ConfigCluster (F : Type 0) : Type 0 where
  pub name : Str
  pub enabled : Bool
  pub brokers : List Str
  pub collector : Option (Config F)

-- `CollectorCluster`, with the collector as it is at the moment. Its last error is never set.
pub record CollectorCluster (F H : Type 0) : Type 0 where
  pub cluster_name : Str
  pub setup : Setup F H
  pub state : Collector F H
  pub cluster_config : ConfigCluster F

-- What is done to the collection of a cluster: it is started, its context is cancelled, its collector
-- and publisher are closed.
pub data Effect : Type 0 where
  started : Str → Effect
  cancelled : Str → Effect
  closed : Str → Effect
  all_cancelled : Effect

-- `effects` is a log, the oldest first.
pub record Manager (F H : Type 0) : Type 0 where
  pub clusters : Map (CollectorCluster F H)
  pub global_config : Config F
  pub effects : List Effect

pub data ManagerError : Type 0 where
  already_exists : Str → ManagerError
  create_failed : Str → ℕ → ManagerError
  not_found : Str → ManagerError

-- What is outside: the answer of the Kafka client's constructor for a list of brokers, the hook that a
-- cluster is given where there is a publisher of events for it, and the first state of that hook.
pub record World (F H : Type 0) : Type 0 where
  pub new_client : Str → Result ℕ Str
  pub offset_invalid : ℤ
  pub hook : Str → Config F → Option (Hook F H)
  pub hook_state : H

-- `GroupStatusCluster`
pub record GroupStatusCluster (F : Type 0) : Type 0 where
  pub in_cluster : Str
  pub group_status : GroupStatus F

-- The loop of `joinBrokers`; the first broker has no comma before it.
join_from : Bool → Str → List Str → Str
join_from first result [] = result
join_from first result (broker ∷ brokers) =
    join_from false ((if first then result else result ++ codes ",") ++ broker) brokers

unfoldable pub join_brokers : List Str → Str
unfolding join_from
join_brokers brokers = join_from true [] brokers

module _ {F : Type 0} where
  abbrev or_global : Config F → Option (Config F) → Config F
  or_global global none = global
  or_global global (some own) = own

  abbrev pub tagged : Str → GroupStatus F → GroupStatusCluster F
  tagged cluster status = record { in_cluster = cluster; group_status = status }

  abbrev pub tagged_if_found : Str → Option (GroupStatus F) → Option (GroupStatusCluster F)
  tagged_if_found name none = none
  tagged_if_found name (some status) = some (tagged name status)

  add_statuses : Str → Map (GroupStatus F) → Map (GroupStatusCluster F) → Map (GroupStatusCluster F)
  add_statuses name [] result = result
  add_statuses name ((group_id, status) ∷ statuses) result =
      add_statuses name statuses (insert (name ++ (slash ∷ group_id)) (tagged name status) result)

module _ {F H : Type 0} where
  -- The result of `createCollectorWithRCA` in its wrapper.
  unfoldable pub new_cluster : World F H → Manager F H → ConfigCluster F → CollectorCluster F H
  new_cluster world m config =
      let chosen = or_global m.global_config config.collector in
      record {
        cluster_name = config.name;
        setup = record {
          config = chosen;
          evaluation_hook = world.hook config.name chosen;
          offset_invalid = world.offset_invalid;
        };
        state = new_with_client world.hook_state;
        cluster_config = config;
      }

  add_created :
      World F H → ConfigCluster F → Manager F H → Result ℕ Str → Option ManagerError × Manager F H
  add_created world config m (err e) = (some (create_failed config.name e), m)
  add_created world config m (ok client) = (
    none,
    record m {
      clusters = insert config.name (new_cluster world m config) m.clusters;
      effects = m.effects ++ started config.name ∷ [];
    },
  )

  add_enabled :
      World F H
      → ConfigCluster F
      → Manager F H
      → Option (CollectorCluster F H)
      → Option ManagerError × Manager F H
  unfolding add_created
  add_enabled world config m (some cluster) = (some (already_exists config.name), m)
  add_enabled world config m none =
      add_created world config m (world.new_client (join_brokers config.brokers))

  unfoldable pub add_cluster :
      World F H → ConfigCluster F → Manager F H → Option ManagerError × Manager F H
  unfolding add_enabled
  add_cluster world config m =
      if not config.enabled
      then (none, m)
      else add_enabled world config m (lookup config.name m.clusters)

  remove_found :
      Str → Manager F H → Option (CollectorCluster F H) → Option ManagerError × Manager F H
  remove_found name m none = (some (not_found name), m)
  remove_found name m (some cluster) = (
    none,
    record m {
      clusters = retain (λ j. not (str_eq name j)) m.clusters;
      effects = m.effects ++ cancelled name ∷ closed name ∷ [];
    },
  )

  unfoldable pub remove_cluster : Str → Manager F H → Option ManagerError × Manager F H
  unfolding remove_found
  remove_cluster name m = remove_found name m (lookup name m.clusters)

  unfoldable pub get_cluster : Str → Manager F H → Option (CollectorCluster F H)
  get_cluster name m = lookup name m.clusters

  statuses_of :
      Str → Option (CollectorCluster F H) → Result ManagerError (Map (GroupStatusCluster F))
  statuses_of name none = err (not_found name)
  statuses_of name (some cluster) =
      ok (map (λ e. (e.0, tagged name e.1)) (get_all_group_statuses cluster.state))

  -- `GetClusterGroupStatuses`
  unfoldable pub get_cluster_group_statuses :
      Str → Manager F H → Result ManagerError (Map (GroupStatusCluster F))
  unfolding statuses_of
  get_cluster_group_statuses name m = statuses_of name (get_cluster name m)

  status_of :
      Str
      → Str
      → Option (CollectorCluster F H)
      → Result ManagerError (Option (GroupStatusCluster F))
  status_of name group_id none = err (not_found name)
  status_of name group_id (some cluster) =
      ok (tagged_if_found name (get_group_status group_id cluster.state))

  -- `Manager.GetGroupStatus`
  unfoldable pub get_status :
      Str → Str → Manager F H → Result ManagerError (Option (GroupStatusCluster F))
  unfolding status_of
  get_status name group_id m = status_of name group_id (get_cluster name m)

  unfoldable pub stop_each : Map (CollectorCluster F H) → List Effect
  stop_each [] = []
  stop_each ((name, cluster) ∷ clusters) = cancelled name ∷ closed name ∷ stop_each clusters

  -- `Stop`: the clusters stay in the map.
  unfoldable pub stop : Manager F H → Manager F H
  unfolding stop_each
  stop m = record m { effects = m.effects ++ all_cancelled ∷ stop_each m.clusters }

  add_clusters :
      Map (CollectorCluster F H) → Map (GroupStatusCluster F) → Map (GroupStatusCluster F)
  unfolding add_statuses
  add_clusters [] result = result
  add_clusters ((name, cluster) ∷ clusters) result =
      add_clusters clusters (add_statuses name (get_all_group_statuses cluster.state) result)

  -- `Manager.GetAllGroupStatuses`, under keys such as `cluster/group`.
  unfoldable pub get_all_statuses : Manager F H → Map (GroupStatusCluster F)
  unfolding add_clusters
  get_all_statuses m = add_clusters m.clusters []
