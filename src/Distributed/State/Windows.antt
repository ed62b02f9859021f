-- ===== src/Distributed/State/Windows.antt =====
-- distributed/state/state_store.go: `StorePartitionWindow` and `GetPartitionWindow`.
use lag_radar.Base.{ℕ, List, [], ◌∷◌, Option, none, some}
use lag_radar.Base.Text.{Str}
use lag_radar.Base.Clock.{Time}
use lag_radar.Base.Result.{Result, ok, err}
use lag_radar.Collector.Types.{OffsetRecord}
use lag_radar.Distributed.Types.{StateStoreConfig}
use lag_radar.Distributed.State.Interface.{
  KeyValue, Json, StateError, marshal_failed, get_window_failed, unmarshal_records_failed, Returned,
  window_key, bare,
}

module _ {S : Type 0} (redis : KeyValue S) (json : Json) (config : StateStoreConfig) where
  store_payload : Time → Str → Result ℕ Str → S → Returned S
  store_payload now key (err e) s = (some (marshal_failed e), s)
  store_payload now key (ok payload) s =
      bare (redis.set_key now (window_key config key) payload config.partition_window_ttl s)

  unfoldable pub store_partition_window : Time → Str → List OffsetRecord → S → Returned S
  unfolding store_payload
  store_partition_window now key [] s = (none, s)
  store_partition_window now key (r ∷ records) s =
      store_payload now key (json.marshal_records (r ∷ records)) s

  -- A window that is not there is `nil`, the empty list.
  read_window : Result ℕ (Option Str) → Result StateError (List OffsetRecord)
  read_window (err e) = err (get_window_failed e)
  read_window (ok none) = ok []
  read_window (ok (some payload)) = decoded (json.unmarshal_records payload)
    where
      decoded : Result ℕ (List OffsetRecord) → Result StateError (List OffsetRecord)
      decoded (err e) = err (unmarshal_records_failed e)
      decoded (ok records) = ok records

  unfoldable pub get_partition_window : Time → Str → S → Result StateError (List OffsetRecord)
  unfolding read_window
  get_partition_window now key s = read_window (redis.get now (window_key config key) s)
