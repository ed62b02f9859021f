-- ===== src/Tests/Cluster.antt =====
-- A manager that cannot be given a cluster.
use lag_radar.Base.{ℕ, ◌≡◌, refl, true, [], ◌∷◌, none, some}
use lag_radar.Base.Int.{ℤ, negsuc}
use lag_radar.Base.Text.{codes}
use lag_radar.Base.Result.{err}
use lag_radar.Base.Map.{lookup}
use lag_radar.Cluster.{ConfigCluster, Manager, World, create_failed, join_brokers, add_cluster}
use lag_radar.Tests.{small, local}

-- No client can be made.
abbrev unreachable : World ℤ ℕ
unreachable = record {
  new_client = λ brokers. err 1;
  offset_invalid = negsuc 1000;
  hook = λ name config. none;
  hook_state = 0;
}

abbrev config : ConfigCluster ℤ
config = record {
  name = local;
  enabled = true;
  brokers = codes "a:9092" ∷ codes "b:9092" ∷ [];
  collector = none;
}

abbrev none_yet : Manager ℤ ℕ
none_yet = record { clusters = []; global_config = small; effects = [] }

joined : join_brokers config.brokers ≡ codes "a:9092,b:9092"
unfolding join_brokers
joined = refl

refused : add_cluster unreachable config none_yet ≡ (some (create_failed local 1), none_yet)
unfolding add_cluster lookup
refused = refl
