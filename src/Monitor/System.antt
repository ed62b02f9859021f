-- ===== src/Monitor/System.antt =====
-- The running monitor: the manager with the loops of its clusters, one step at a time.
pub mod Invariant
pub mod Answers
pub mod Shutdown
pub mod Started
use lag_radar.Base.{◌≡◌, some}
use lag_radar.Base.Text.{Str}
use lag_radar.Base.Float.{Float64}
use lag_radar.Base.Map.{insert}
use lag_radar.Collector.Types.{Config}
use lag_radar.Collector.State.{Collector}
use lag_radar.Collector.Cycle.{Wake, running, step}
use lag_radar.Cluster.{
  CollectorCluster, ConfigCluster, Manager, World, add_cluster, remove_cluster, get_cluster,
}
use lag_radar.Monitor.{new_manager}

module _ {F H : Type 0} where
  -- The collector of a cluster has changed.
  unfoldable pub with_state : Str → CollectorCluster F H → Collector F H → Manager F H → Manager F H
  with_state name cluster c m = record m {
    clusters = insert name (record cluster { state = c }) m.clusters;
  }

module _ {F H : Type 0} ⦃f : Float64 F⦄ (world : World F H) where
  -- A cluster is added or removed, with or without an error, or the loop of a cluster wakes and runs on.
  -- A loop that waits for ever makes no more steps. The manager is stopped when the monitor ends.
  pub data Step (m : Manager F H) : Manager F H → Type 0 where
    added : (config : ConfigCluster F) → Step m (add_cluster world config m).1
    removed : (name : Str) → Step m (remove_cluster name m).1
    woken :
        (name : Str) (w : Wake F) {cluster : CollectorCluster F H} {c : Collector F H}
        → get_cluster name m ≡ some cluster
        → step cluster.setup name w (running cluster.state) ≡ running c
        → Step m (with_state name cluster c m)

  -- The managers that a new one becomes.
  pub data Reachable (config : Config F) : Manager F H → Type 0 where
    at_start : Reachable config (new_manager config)
    later : {m next : Manager F H} → Reachable config m → Step m next → Reachable config next
