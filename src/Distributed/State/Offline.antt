-- ===== src/Distributed/State/Offline.antt =====
-- An instance that is marked as offline and goes on with its heartbeats.
use lag_radar.Base.{◌*◌, ◌≡◌, [], ◌∷◌, Option, none, some, arith, true}
use lag_radar.Base.Int.{pos, ◌+ℤ◌, ◌≤ℤ◌, ltb_ℤ}
use lag_radar.Base.Text.{Str, codes, str_eq}
use lag_radar.Base.Clock.{Time, Duration, second}
use lag_radar.Base.Result.{ok}
use lag_radar.Distributed.Types.{StateStoreConfig, InstanceInfo}
use lag_radar.Distributed.State.Interface.{KeyValue, Json, instance_key}
use lag_radar.Distributed.State.Instances.{
  is_active, offline_at, update_heartbeat, get_active_instances, scan_instances, read_instances,
  listed, mark_instance_offline,
}
use lag_radar.Distributed.State.Heartbeat.{
  IsExpiring, Beats, bare-none, update_heartbeat-Holds, Beats-Holds,
}

module _ {S : Type 0} (redis : KeyValue S) (content : S → Str → Time → Option Str)
    (laws : IsExpiring redis content) (json : Json) (config : StateStoreConfig) (id : Str) where
  mark_instance_offline-content :
      (t later : Time) (s next : S) (info : InstanceInfo) {old payload : Str}
      → redis.get t (instance_key config id) s ≡ ok (some old)
      → json.unmarshal_info old ≡ ok info
      → json.marshal_info (offline_at redis json config t info) ≡ ok payload
      → mark_instance_offline redis json config t id s ≡ (none, next)
      → t ≤ℤ later
      → ltb_ℤ later (t +ℤ pos (30 * second)) ≡ true
      → content next (instance_key config id) later ≡ some payload
  unfolding mark_instance_offline
  mark_instance_offline-content t later s next info {old} {payload} found decoded encoded done from
        until =
      let key = instance_key config id in
      let stored = redis.set_key t key payload (pos (30 * second)) s in
      let (fine, same) =
        bare-none redis content laws json config id stored next
          (rw (found, decoded, encoded, mark_instance_offline) at done) in
      rw⁻¹ same (laws.content-set t later key payload (pos (30 * second)) s fine from until)

  listed_offline :
      (now : Time) (timeout : Duration) (t : Time) (info : InstanceInfo) {payload : Str}
      → json.unmarshal_info payload ≡ ok (offline_at redis json config t info)
      → listed redis json config now timeout (some payload) ≡ []
  unfolding listed is_active str_eq
  listed_offline now timeout t info decoded = rw decoded (ground arith)

  -- An instance is marked as offline, and its state survives JSON. If its next heartbeat comes within
  -- the 30 seconds of its key, and each later one in time, and they succeed: where it is the only one
  -- that a scan finds, the list of the active instances stays empty, whatever the timeout is, although
  -- the instance goes on with its heartbeats.
  pub offline_instance_stays :
      (t v u now : Time) (timeout : Duration) (s marked first after : S) (info : InstanceInfo)
      {old payload : Str}
      → redis.get t (instance_key config id) s ≡ ok (some old)
      → json.unmarshal_info old ≡ ok info
      → json.marshal_info (offline_at redis json config t info) ≡ ok payload
      → json.unmarshal_info payload ≡ ok (offline_at redis json config t info)
      → mark_instance_offline redis json config t id s ≡ (none, marked)
      → t ≤ℤ v
      → ltb_ℤ v (t +ℤ pos (30 * second)) ≡ true
      → update_heartbeat redis json config v id marked ≡ (none, first)
      → Beats redis content laws json config id v first u after
      → u ≤ℤ now
      → ltb_ℤ now (u +ℤ config.instance_ttl) ≡ true
      → redis.scan now 0 (instance_key config (codes "*")) after
        ≡ ok (instance_key config id ∷ [], 0)
      → (redis.get_each now (instance_key config id ∷ []) after).0 ≡ none
      → get_active_instances redis json config now timeout after ≡ ([], none)
  unfolding get_active_instances scan_instances read_instances
  offline_instance_stays t v u now timeout s marked first after info {old} {payload} found decoded
        encoded survives done soon within beat_first beats from until scanned fine =
      let there =
        mark_instance_offline-content t v s marked info found decoded encoded done soon within in
      let held =
        update_heartbeat-Holds redis content laws json config id v marked first payload there
          beat_first in
      let holds = Beats-Holds redis content laws json config id payload held beats now from until in
      let answers = laws.get_each-content now (instance_key config id ∷ []) after fine in
      rw (
        scanned,
        scan_instances,
        fine,
        answers,
        holds,
        read_instances,
        listed_offline now timeout t info survives,
      )
