-- ===== src/Distributed/Types.antt =====
-- distributed/distributed_configs.go: what the state store reads and stores.
use lag_radar.Base.Int.{ℤ}
use lag_radar.Base.Text.{Str}
use lag_radar.Base.Clock.{Time, Duration}
use lag_radar.Base.Map.{Map}

pub record StateStoreConfig : Type 0 where
  pub prefix : Str
  pub instance_ttl : Duration
  pub instance_timeout : Duration
  pub partition_window_ttl : Duration
  pub assignment_timeout : Duration

-- A value of the metadata; a time stands for its text in RFC 3339.
pub data Metadatum : Type 0 where
  text : Str → Metadatum
  timestamp : Time → Metadatum

pub record InstanceInfo : Type 0 where
  pub id : Str
  pub last_heartbeat : Time
  pub status : Str
  pub assigned_count : ℤ
  pub metadata : Map Metadatum
