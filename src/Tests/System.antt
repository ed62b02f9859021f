-- ===== src/Tests/System.antt =====
-- A monitor that is given a cluster, whose loop then collects once.
use lag_radar.Base.{ℕ, ◌+◌, ◌≡◌, refl, ◌↔◌, ◌⊎◌, inl, true, [], ◌∷◌, none, some, arith}
use lag_radar.Base.Result.{ok}
use lag_radar.Base.Int.{ℤ, negsuc}
use lag_radar.Base.Text.{Str, codes, str_eq}
use lag_radar.Base.Strings.{NoSlash}
use lag_radar.Base.Map.{lookup, insert}
use lag_radar.Collector.Types.{GroupStatus}
use lag_radar.Collector.State.{Collector, new_with_client}
use lag_radar.Collector.Cycle.{returned, collect_metrics, get_group_status, step, tick, running}
use lag_radar.Collector.Cycle.Store.{collect_metrics_stores}
use lag_radar.Cluster.{
  ConfigCluster, CollectorCluster, Manager, World, GroupStatusCluster, new_cluster, add_cluster,
  get_cluster, get_status, stop, stop_each,
}
use lag_radar.Cluster.Union.{if_known}
use lag_radar.Api.{get_all_groups_across_clusters, cluster_ready}
use lag_radar.Api.Listing.{listed_in, without_cluster}
use lag_radar.Monitor.{new_manager}
use lag_radar.Monitor.System.{with_state, Reachable, at_start, later, added, woken}
use lag_radar.Monitor.System.Answers.{PlainNames, reachable_listing, reachable_ready_iff}
use lag_radar.Monitor.System.Shutdown.{
  tally, starts, cancels, closes, count_of, each_collector_closed,
}
use lag_radar.Tests.{whole, small, setup, round, billing, local}

abbrev world : World ℤ ℕ
world = record {
  new_client = λ brokers. ok brokers;
  offset_invalid = negsuc 1000;
  hook = λ name config. none;
  hook_state = 0;
}

abbrev config : ConfigCluster ℤ
config = record { name = local; enabled = true; brokers = codes "a:9092" ∷ []; collector = none }

abbrev cluster : CollectorCluster ℤ ℕ
cluster = new_cluster world (new_manager small) config

-- The first collection of the cluster stores the status of a group.
collection :
    (c : Collector ℤ ℕ) × (s : GroupStatus ℤ) × (collect_metrics setup local round
        (new_with_client 0)
      ≡ returned (none, c))
    × (get_group_status billing c ≡ some s)
unfolding str_eq
collection =
    collect_metrics_stores setup local round (new_with_client 0) billing refl (ground arith)
      (inl refl) refl

abbrev with_cluster : Manager ℤ ℕ
with_cluster = (add_cluster world config (new_manager small)).1

abbrev collected : Manager ℤ ℕ
collected = with_state local cluster collection.0 with_cluster

there : get_cluster local with_cluster ≡ some cluster
unfolding get_cluster add_cluster lookup insert str_eq new_manager
there = refl

collects : step cluster.setup local (tick round) (running cluster.state) ≡ running collection.0
unfolding step new_cluster new_manager
collects = rw collection.2 refl

reached : Reachable world small collected
reached = later (later at_start (added config)) (woken local (tick round) there collects)

local-NoSlash : NoSlash local
local-NoSlash = ground arith

plain : PlainNames collected.clusters
unfolding with_state insert add_cluster new_manager lookup str_eq
plain = (local-NoSlash, tt)

reachable_listing_example :
    listed_in local billing (get_all_groups_across_clusters collected).content
    ≡ without_cluster (if_known (get_status local billing collected))
reachable_listing_example = reachable_listing world reached local billing local-NoSlash plain

reachable_ready_iff_example :
    (((cluster_ready collected).code ≡ 200) ↔ (
      (n : Str) × (g : Str) × (status : GroupStatusCluster ℤ) × (get_status n g collected
        ≡ ok (some status))))
    × (((cluster_ready collected).code ≡ 200) ⊎ ((cluster_ready collected).code ≡ 503))
reachable_ready_iff_example = reachable_ready_iff world reached

each_collector_closed_example :
    let before = collected.effects in
    let after = (stop collected).effects in
    (tally (cancels local) after ≡ tally (starts local) after)
    × (tally (closes local) after ≡ tally (starts local) after)
    × (tally (starts local) before
        ≡ tally (closes local) before + count_of (get_cluster local collected))
each_collector_closed_example = each_collector_closed world local reached

closed_once : tally (closes local) (stop collected).effects ≡ 1
unfolding tally stop stop_each with_state insert add_cluster lookup new_manager str_eq
closed_once = refl
