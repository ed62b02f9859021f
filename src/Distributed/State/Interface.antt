-- ===== src/Distributed/State/Interface.antt =====
-- distributed/state/state_store.go: what the state store calls of Redis and JSON, its errors and its keys.
use lag_radar.Base.{ℕ, List, ◌++◌, ◌*◌, Option, none, some}
use lag_radar.Base.Int.{pos}
use lag_radar.Base.Text.{Str, codes}
use lag_radar.Base.Clock.{Time, Duration, minute}
use lag_radar.Base.Map.{Map}
use lag_radar.Base.Result.{Result}
use lag_radar.Collector.Types.{OffsetRecord}
use lag_radar.Distributed.Types.{StateStoreConfig, InstanceInfo}

-- A command of a transaction.
pub data Command : Type 0 where
  del : Str → Command
  h_set : Str → Str → Str → Command
  set : Str → Str → Duration → Command

-- The error of a pipeline: that of a missing key, or another one, by a number.
pub data ExecError : Type 0 where
  missing : ExecError
  exec_failed : ℕ → ExecError

-- The calls of the Redis client at a time, on a state `S` of the server. `none` is no error, or a
-- missing key; the answers of a pipeline are `none` where the command failed.
pub record KeyValue (S : Type 0) : Type 0 where
  pub set_key : Time → Str → Str → Duration → S → Option ℕ × S
  pub exists : Time → Str → S → Result ℕ ℕ
  pub expire : Time → Str → Duration → S → Option ℕ × S
  pub get : Time → Str → S → Result ℕ (Option Str)
  pub scan : Time → ℕ → Str → S → Result ℕ (List Str × ℕ)
  pub get_each : Time → List Str → S → Option ExecError × List (Option Str)
  pub h_get_all : Time → Str → S → Result ℕ (Map Str)
  pub transact : Time → List Command → S → Option ℕ × S

-- `json.Marshal` and `json.Unmarshal`.
pub record Json : Type 0 where
  pub marshal_info : InstanceInfo → Result ℕ Str
  pub unmarshal_info : Str → Result ℕ InstanceInfo
  pub marshal_groups : List Str → Result ℕ Str
  pub unmarshal_groups : Str → Result ℕ (List Str)
  pub marshal_records : List OffsetRecord → Result ℕ Str
  pub unmarshal_records : Str → Result ℕ (List OffsetRecord)

-- The errors, with those that are wrapped.
pub data StateError : Type 0 where
  redis_error : ℕ → StateError
  json_error : ℕ → StateError
  marshal_failed : ℕ → StateError
  marshal_groups_failed : Str → ℕ → StateError
  max_iterations_reached : StateError
  scan_failed : ℕ → StateError
  pipeline_failed : ℕ → StateError
  store_assignments_failed : ℕ → StateError
  assignments_expired : Time → StateError
  get_assignments_failed : ℕ → StateError
  get_window_failed : ℕ → StateError
  unmarshal_records_failed : ℕ → StateError

abbrev pub Returned : Type 0 → Type 0
Returned S = Option StateError × S

abbrev pub max_iterations : ℕ
max_iterations = 100

-- `NewStateStoreWithClient`'s configuration.
abbrev pub default_config : StateStoreConfig
default_config = record {
  prefix = codes "lagradar";
  instance_ttl = pos (5 * minute);
  instance_timeout = pos (2 * minute);
  partition_window_ttl = pos (24 * 60 * minute);
  assignment_timeout = pos (10 * minute);
}

abbrev pub active_text : Str
active_text = codes "active"

abbrev pub offline_text : Str
offline_text = codes "offline"

unfoldable pub instance_key : StateStoreConfig → Str → Str
instance_key config id = config.prefix ++ codes ":instance:" ++ id

unfoldable pub window_key : StateStoreConfig → Str → Str
window_key config key = config.prefix ++ codes ":window:" ++ key

unfoldable pub assignments_key : StateStoreConfig → Str
assignments_key config = config.prefix ++ codes ":assignments"

unfoldable pub assignments_timestamp_key : StateStoreConfig → Str
assignments_timestamp_key config = assignments_key config ++ codes ":timestamp"

-- The error of a call that is returned as it is.
abbrev pub bare : {S : Type 0} → Option ℕ × S → Returned S
bare (none, s) = (none, s)
bare (some e, s) = (some (redis_error e), s)
