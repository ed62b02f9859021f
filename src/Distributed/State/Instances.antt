-- ===== src/Distributed/State/Instances.antt =====
-- distributed/state/state_store.go: the registration of instances, their heartbeats, and which are active.
use lag_radar.Base.{
  ℕ, zero, suc, Bool, ◌&&◌, List, [], ◌∷◌, ◌++◌, ◌*◌, Option, none, some, ◌==◌, if◌then◌else◌,
}
use lag_radar.Base.Int.{pos, ltb_ℤ}
use lag_radar.Base.Text.{Str, codes, str_eq}
use lag_radar.Base.Clock.{Time, Duration, second, sub_time}
use lag_radar.Base.Result.{Result, ok, err}
use lag_radar.Distributed.Types.{StateStoreConfig, InstanceInfo, text, timestamp}
use lag_radar.Distributed.State.Interface.{
  ExecError, missing, exec_failed, KeyValue, Json, StateError, redis_error, json_error,
  marshal_failed, max_iterations_reached, scan_failed, pipeline_failed, Returned, max_iterations,
  active_text, offline_text, instance_key, bare,
}

-- The state of an instance that registers at a time.
unfoldable pub registered : Str → Time → InstanceInfo
registered id now = record {
  id = id;
  last_heartbeat = now;
  status = active_text;
  assigned_count = pos 0;
  metadata = (codes "version", text (codes "1.0.0")) ∷ (codes "start_time", timestamp now) ∷ [];
}

-- `now.Sub(info.LastHeartbeat) < timeout && info.Status == "active"`
unfoldable pub is_active : Time → Duration → InstanceInfo → Bool
is_active now timeout info =
    ltb_ℤ (sub_time now info.last_heartbeat) timeout && str_eq info.status active_text

module _ {S : Type 0} (redis : KeyValue S) (json : Json) (config : StateStoreConfig) where
  store_info : Time → Str → Duration → Result ℕ Str → S → Returned S
  store_info now key ttl (err e) s = (some (marshal_failed e), s)
  store_info now key ttl (ok payload) s = bare (redis.set_key now key payload ttl s)

  unfoldable pub register_instance : Time → Str → S → Returned S
  unfolding store_info
  register_instance now id s =
      store_info now (instance_key config id) config.instance_ttl
        (json.marshal_info (registered id now)) s

  after_exists : Time → Str → Result ℕ ℕ → S → Returned S
  after_exists now id (err e) s = (some (redis_error e), s)
  after_exists now id (ok n) s =
      if n == 0
      then register_instance now id s
      else bare (redis.expire now (instance_key config id) config.instance_ttl s)

  unfoldable pub update_heartbeat : Time → Str → S → Returned S
  unfolding after_exists
  update_heartbeat now id s = after_exists now id (redis.exists now (instance_key config id) s) s

  decode_info : Time → Duration → Result ℕ InstanceInfo → List Str
  decode_info now timeout (err e) = []
  decode_info now timeout (ok info) = if is_active now timeout info then info.id ∷ [] else []

  -- What the loop over the answers of the pipeline appends for one of them.
  unfoldable pub listed : Time → Duration → Option Str → List Str
  unfolding decode_info
  listed now timeout none = []
  listed now timeout (some payload) = decode_info now timeout (json.unmarshal_info payload)

  unfoldable pub read_instances : Time → Duration → List (Option Str) → List Str → List Str
  unfolding listed
  read_instances now timeout [] instances = instances
  read_instances now timeout (answer ∷ answers) instances =
      read_instances now timeout answers (instances ++ listed now timeout answer)

  -- A page with no keys has no pipeline.
  unfoldable pub read_page :
      Time → Duration → S → List Str → List Str → Result StateError (List Str)
  read_page now timeout s [] instances = ok instances
  read_page now timeout s (key ∷ keys) instances =
      let (failed, answers) = redis.get_each now (key ∷ keys) s in
      let read = read_instances now timeout answers instances in after_exec failed read
    where
      after_exec : Option ExecError → List Str → Result StateError (List Str)
      after_exec none read = ok read
      after_exec (some missing) read = ok read
      after_exec (some (exec_failed e)) read = err (pipeline_failed e)

  -- What follows a page: the end, or the next page from its cursor.
  abbrev after_page :
      (ℕ → List Str → List Str × Option StateError)
      → ℕ
      → Result StateError (List Str)
      → List Str × Option StateError
  after_page again next (err e) = ([], some e)
  after_page again zero (ok instances) = (instances, none)
  after_page again (suc next) (ok instances) = again (suc next) instances

  abbrev after_scan :
      (ℕ → List Str → List Str × Option StateError)
      → Time
      → Duration
      → S
      → List Str
      → Result ℕ (List Str × ℕ)
      → List Str × Option StateError
  after_scan again now timeout s instances (err e) = ([], some (scan_failed e))
  after_scan again now timeout s instances (ok (keys, next)) =
      after_page again next (read_page now timeout s keys instances)

  -- The loop, with the iterations that are left.
  unfoldable pub scan_instances :
      Time → Duration → S → ℕ → ℕ → List Str → List Str × Option StateError
  unfolding read_page
  scan_instances now timeout s zero cursor instances = (instances, some max_iterations_reached)
  scan_instances now timeout s (suc left) cursor instances =
      after_scan (scan_instances now timeout s left) now timeout s instances
        (redis.scan now cursor (instance_key config (codes "*")) s)

  unfoldable pub get_active_instances : Time → Duration → S → List Str × Option StateError
  get_active_instances now timeout s = scan_instances now timeout s max_iterations 0 []

  store_offline : Time → Str → Result ℕ Str → S → Returned S
  store_offline now key (err e) s = (some (json_error e), s)
  store_offline now key (ok payload) s = bare (redis.set_key now key payload (pos (30 * second)) s)

  abbrev pub offline_at : Time → InstanceInfo → InstanceInfo
  offline_at now info = record info { status = offline_text; last_heartbeat = now }

  mark_decoded : Time → Str → Result ℕ InstanceInfo → S → Returned S
  unfolding store_offline
  mark_decoded now key (err e) s = (some (json_error e), s)
  mark_decoded now key (ok info) s =
      store_offline now key (json.marshal_info (offline_at now info)) s

  mark_found : Time → Str → Result ℕ (Option Str) → S → Returned S
  unfolding mark_decoded
  mark_found now key (err e) s = (some (redis_error e), s)
  mark_found now key (ok none) s = (none, s)
  mark_found now key (ok (some payload)) s = mark_decoded now key (json.unmarshal_info payload) s

  unfoldable pub mark_instance_offline : Time → Str → S → Returned S
  unfolding mark_found
  mark_instance_offline now id s =
      mark_found now (instance_key config id) (redis.get now (instance_key config id) s) s
