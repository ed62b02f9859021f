-- ===== src/Monitor/System/Started.antt =====
-- The manager that `main` gives its HTTP server.
use lag_radar.Base.{◌≡◌, inl, inr, List, [], ◌∷◌, Option-cases, arith}
use mathlib.Core.Path.{subst}
use lag_radar.Base.Text.{Str}
use lag_radar.Base.Clock.{Duration}
use lag_radar.Base.Float.{Float64}
use lag_radar.Base.Result.{ok, Result-cases, ok_injective}
use lag_radar.Collector.Types.{Config}
use lag_radar.Cluster.{ConfigCluster, Manager, World, add_cluster}
use lag_radar.Cluster.Helper.{Hooked, cluster_world}
use lag_radar.Monitor.{
  FileConfig, Environment, choose_file, collector_config, legacy_cluster, add_configured, add_all,
  with_timeout, with_interval, with_file, with_path, start,
}
use lag_radar.Monitor.System.{Reachable, at_start, later, added}

module _ {F H : Type 0} ⦃f : Float64 F⦄ (world : World F H) {config : Config F} where
  add_configured-Reachable :
      (configs : List (ConfigCluster F)) {m : Manager F H}
      → Reachable world config m
      → Reachable world config (add_configured world configs m)
  unfolding add_configured
  add_configured-Reachable [] reached = reached
  add_configured-Reachable (cluster ∷ configs) reached =
      add_configured-Reachable configs (later reached (added cluster))

  add_all-Reachable :
      (configs : List (ConfigCluster F)) (brokers : List Str) {m final : Manager F H}
      → Reachable world config m
      → add_all world configs brokers m ≡ ok final
      → Reachable world config final
  unfolding add_all
  add_all-Reachable (cluster ∷ configs) brokers reached started =
      subst (Reachable world config) (ok_injective started)
        (add_configured-Reachable (cluster ∷ configs) reached)
  add_all-Reachable [] (broker ∷ brokers) {m} reached started =
      elim (Option-cases (add_cluster world (legacy_cluster (broker ∷ brokers)) m).0) [
        | inl added_it ↦
            subst (Reachable world config) (ok_injective (rw added_it at started))
              (later reached (added _))
        | inr (e, failed) ↦ absurd (let refused : _ = rw failed at started in ground arith)
      ]
  add_all-Reachable [] [] reached started = absurd (ground arith)

module _ {F A C S : Type 0} ⦃f : Float64 F⦄ (env : Environment F A C S) where
  -- A monitor that starts has a reachable manager, with the settings of a file that could be read and
  -- whose durations could be parsed.
  pub start-Reachable :
      {m : Manager F (Hooked S)}
      → start env ≡ ok m
      → (file : FileConfig F) × (check_interval : Duration) × (inactivity_timeout : Duration)
        × Reachable
            (cluster_world env.outside file.publisher)
            (collector_config file check_interval inactivity_timeout)
            m
  unfolding start with_path with_file with_interval with_timeout
  start-Reachable started = elim (Option-cases (choose_file env.config_file env.file_exists)) [
    | inl nowhere ↦ absurd (let refused : _ = rw nowhere at started in ground arith)
    | inr (path, chosen) ↦ elim (Result-cases (env.load_config path)) [
      | inr (e, failed) ↦ absurd (let refused : _ = rw (chosen, failed) at started in ground arith)
      | inl (file, loaded) ↦ elim (Result-cases (env.parse_duration file.check_interval)) [
        | inr (e, failed) ↦
            absurd (let refused : _ = rw (chosen, loaded, failed) at started in ground arith)
        | inl (check, checked) ↦ elim (Result-cases (env.parse_duration file.inactivity_timeout)) [
          | inr (e, failed) ↦
              absurd
                (let refused : _ = rw (chosen, loaded, checked, failed) at started in ground arith)
          | inl (timeout, timed) ↦ (
            file,
            check,
            timeout,
            add_all-Reachable (cluster_world env.outside file.publisher) file.clusters
                file.kafka_brokers at_start (rw (chosen, loaded, checked, timed) at started),
          )
        ]
      ]
    ]
  ]
