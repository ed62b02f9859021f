-- ===== src/Monitor/System/Invariant.antt =====
-- What every reachable manager satisfies, and what its answers to queries are then worth.
use lag_radar.Base.{◌≡◌, sym, inl, inr, Option-cases, some, All}
use mathlib.Core.Path.{subst}
use lag_radar.Base.Text.{Str}
use lag_radar.Base.Float.{Float64}
use lag_radar.Base.Map.{
  Distinct, lookup, insert-Distinct, retain-Distinct, retain-All, insert-All, lookup-All,
}
use lag_radar.Collector.Types.{Config}
use lag_radar.Collector.State.{Collector}
use lag_radar.Collector.Cycle.{Wake, running, step}
use lag_radar.Collector.Cycle.Stored.{IsCoherent, new_with_client-IsCoherent, running-IsCoherent}
use lag_radar.Cluster.{
  CollectorCluster, ConfigCluster, Manager, World, new_cluster, add_cluster, remove_cluster,
  get_cluster,
}
use lag_radar.Cluster.Registry.{add_cluster-cases}
use lag_radar.Monitor.{new_manager}
use lag_radar.Monitor.System.{with_state, Step, added, removed, woken, Reachable, at_start, later}

module _ {F H : Type 0} where
  -- The manager has each cluster once, and its collectors are coherent.
  abbrev pub IsSound : Manager F H → Type 0
  IsSound m = Distinct m.clusters × All (λ e. IsCoherent e.1.state) m.clusters

module _ {F H : Type 0} ⦃f : Float64 F⦄ (world : World F H) where
  add_cluster-IsSound :
      (config : ConfigCluster F) (m : Manager F H)
      → IsSound m
      → IsSound (add_cluster world config m).1
  unfolding new_cluster
  add_cluster-IsSound config m sound = elim (add_cluster-cases world config m) [
    | inl same ↦ subst IsSound (sym same) sound
    | inr (absent, new) ↦ subst IsSound (sym new) (
      insert-Distinct config.name (new_cluster world m config) m.clusters sound.0,
      insert-All (λ e. IsCoherent e.1.state) config.name (new_cluster world m config) m.clusters
          (new_with_client-IsCoherent F world.hook_state) sound.1,
    )
  ]

  remove_cluster-IsSound :
      (name : Str) (m : Manager F H) → IsSound m → IsSound (remove_cluster name m).1
  unfolding remove_cluster
  remove_cluster-IsSound name m sound = elim (Option-cases (lookup name m.clusters)) [
    | inl unknown ↦ rw unknown sound
    | inr (cluster, there) ↦
        rw there (retain-Distinct _ m.clusters sound.0, retain-All _ _ m.clusters sound.1)
  ]

  with_state-IsSound :
      (name : Str) (w : Wake F) (m : Manager F H) (cluster : CollectorCluster F H)
      (c : Collector F H)
      → get_cluster name m ≡ some cluster
      → step cluster.setup name w (running cluster.state) ≡ running c
      → IsSound m
      → IsSound (with_state name cluster c m)
  unfolding with_state get_cluster
  with_state-IsSound name w m cluster c there ran sound =
      let coherent : IsCoherent c =
        running-IsCoherent cluster.setup name w cluster.state c ran
          (lookup-All (λ e. IsCoherent e.1.state) name m.clusters sound.1 there) in
      (
        insert-Distinct name _ m.clusters sound.0,
        insert-All (λ e. IsCoherent e.1.state) name _ m.clusters coherent sound.1,
      )

  Step-IsSound : {m next : Manager F H} → Step world m next → IsSound m → IsSound next
  Step-IsSound {m} (added config) sound = add_cluster-IsSound config m sound
  Step-IsSound {m} (removed name) sound = remove_cluster-IsSound name m sound
  Step-IsSound {m} (woken name w {cluster} {c} there ran) sound =
      with_state-IsSound name w m cluster c there ran sound

  pub Reachable-IsSound :
      {config : Config F} {m : Manager F H} → Reachable world config m → IsSound m
  unfolding new_manager
  Reachable-IsSound at_start = (tt, tt)
  Reachable-IsSound (later reached step) = Step-IsSound step (Reachable-IsSound reached)
