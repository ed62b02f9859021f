-- ===== src/Monitor/Main.antt =====
-- cmd/monitor/main.go: the whole of `main`, from the start over the run of the collectors to its end.
pub mod Closed
use lag_radar.Base.{ℕ, ◌≡◌, List, [], Option, none, some}
use lag_radar.Base.Text.{Str}
use lag_radar.Base.Float.{Float64}
use lag_radar.Base.Result.{ok, err}
use lag_radar.Collector.State.{Round, Collector}
use lag_radar.Collector.Cycle.{Wake, running, panicked, step, start_periodic_collection}
use lag_radar.Cluster.{CollectorCluster, Manager, get_cluster, stop}
use lag_radar.Cluster.Helper.{Hooked}
use lag_radar.Monitor.{Environment, FileConfig, Fatal, choose_file, start}
use lag_radar.Monitor.Server.{Mux, start_http_server}
use lag_radar.Monitor.System.{with_state}

module _ {F H : Type 0} ⦃f : Float64 F⦄ where
  -- While the server runs, the loops of the collectors wake in any order.
  pub data Wakes (m : Manager F H) : Manager F H → Type 0 where
    still : Wakes m m
    wakes :
        (name : Str) (w : Wake F) {next : Manager F H} {cluster : CollectorCluster F H}
        {c : Collector F H}
        → Wakes m next
        → get_cluster name next ≡ some cluster
        → step cluster.setup name w (running cluster.state) ≡ running c
        → Wakes m (with_state name cluster c next)

-- The end of `main`: a call of `log.Fatalf` before the server, a panic of the registration, a panic of the
-- goroutine of a collector, or a signal. In the second and the last the deferred `Stop` is run.
pub data Ending (F H : Type 0) : Type 0 where
  fatal : Fatal → Ending F H
  registration_panicked : Manager F H → Ending F H
  shut_down : Manager F H → Ending F H
  collector_panicked : Manager F H → Ending F H

module _ {F A C S : Type 0} ⦃f : Float64 F⦄ (env : Environment F A C S) where
  -- The ways in which `main` ends, where `ListenAndServe` has no other error than that of its shutdown.
  pub data Main : Ending F (Hooked S) → Type 0 where
    not_started : {e : Fatal} → start env ≡ err e → Main (fatal e)
    not_registered :
        {path : Str} {file : FileConfig F} {m : Manager F (Hooked S)}
        → choose_file env.config_file env.file_exists ≡ some path
        → env.load_config path ≡ ok file
        → start env ≡ ok m
        → start_http_server file.metrics_path m ≡ none
        → Main (registration_panicked (stop m))
    interrupted :
        {path : Str} {file : FileConfig F} {m last : Manager F (Hooked S)} {mux : Mux}
        → choose_file env.config_file env.file_exists ≡ some path
        → env.load_config path ≡ ok file
        → start env ≡ ok m
        → start_http_server file.metrics_path m ≡ some mux
        → Wakes m last
        → Main (shut_down (stop last))
    crashed_at_start :
        (name : Str) (first : Round F) {m : Manager F (Hooked S)}
        {cluster : CollectorCluster F (Hooked S)}
        → start env ≡ ok m
        → get_cluster name m ≡ some cluster
        → start_periodic_collection cluster.setup name first [] cluster.state ≡ panicked
        → Main (collector_panicked m)
    crashed :
        (name : Str) (w : Wake F) {m last : Manager F (Hooked S)}
        {cluster : CollectorCluster F (Hooked S)}
        → start env ≡ ok m
        → Wakes m last
        → get_cluster name last ≡ some cluster
        → step cluster.setup name w (running cluster.state) ≡ panicked
        → Main (collector_panicked last)
