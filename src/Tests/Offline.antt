-- ===== src/Tests/Offline.antt =====
-- An instance that is marked as offline after a minute, and beats ten seconds later.
use lag_radar.Base.{◌*◌, ◌≡◌, refl, [], none, arith, if◌then◌else◌}
use lag_radar.Base.Int.{pos, ◌+ℤ◌, ◌-ℤ◌}
use lag_radar.Base.Text.{str_eq}
use lag_radar.Base.Clock.{second, minute, sub_time}
use lag_radar.Base.Result.{ok, err}
use lag_radar.Distributed.Types.{InstanceInfo}
use lag_radar.Distributed.State.Interface.{Json, active_text, offline_text, instance_key}
use lag_radar.Distributed.State.Instances.{
  registered, register_instance, update_heartbeat, mark_instance_offline, get_active_instances,
}
use lag_radar.Distributed.State.Heartbeat.{none_yet, beat}
use lag_radar.Distributed.State.Offline.{offline_instance_stays}
use lag_radar.Tests.Server.{Server, server, content, server-IsExpiring, config, blank}
use lag_radar.Tests.{local}

abbrev gone : InstanceInfo
gone = record (registered local (pos 0)) { status = offline_text; last_heartbeat = pos minute }

-- A JSON for the one instance, by its status.
abbrev by_status : Json
by_status = record {
  marshal_info = λ info. ok info.status;
  unmarshal_info = λ s. if str_eq s active_text then ok (registered local (pos 0)) else ok gone;
  marshal_groups = λ groups. err 1;
  unmarshal_groups = λ payload. err 1;
  marshal_records = λ records. err 1;
  unmarshal_records = λ payload. err 1;
}

abbrev there : Server
there = (register_instance server by_status config (pos 0) local blank).1

abbrev marked : Server
marked = (mark_instance_offline server by_status config (pos minute) local there).1

abbrev first : Server
first = (update_heartbeat server by_status config (pos (70 * second)) local marked).1

abbrev second_beat : Server
second_beat = (update_heartbeat server by_status config (pos (3 * minute)) local first).1

offline_instance_stays_example :
    get_active_instances server by_status config (pos (4 * minute)) (pos (2 * minute)) second_beat
    ≡ ([], none)
unfolding register_instance mark_instance_offline update_heartbeat instance_key str_eq ◌+ℤ◌ ◌-ℤ◌
    sub_time registered
offline_instance_stays_example =
    offline_instance_stays server content server-IsExpiring by_status config local (pos minute)
      (pos (70 * second)) (pos (3 * minute)) (pos (4 * minute)) (pos (2 * minute)) there marked
      first second_beat (registered local (pos 0)) refl refl refl refl refl (omega arith) refl refl
      (beat (pos (3 * minute)) second_beat none_yet (omega arith) refl refl) (omega arith) refl refl
      refl
