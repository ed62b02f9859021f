-- ===== src/Tests/Store.antt =====
-- A state store on a server.
use lag_radar.Base.{
  ◌*◌, ◌^◌, ◌<◌, ◌≤◌, ◌⊎◌, ◌≡◌, refl, true, List, [], ◌∷◌, some, none, arith, inl, inr, map,
}
use lag_radar.Base.Int.{pos, ltb_ℤ, ◌+ℤ◌, ◌-ℤ◌, ◌*ℤ◌}
use lag_radar.Base.Text.{Str, codes, str_eq}
use lag_radar.Base.Word.{add_i64, wrap}
use lag_radar.Base.Clock.{second, minute, sub_time, unix}
use lag_radar.Base.Map.{Map, lookup, insert}
use lag_radar.Base.Strings.{split_slashes, join_slashes}
use lag_radar.Base.Result.{ok, err}
use lag_radar.Distributed.State.Interface.{
  KeyValue, missing, Json, instance_key, window_key, assignments_expired, max_iterations_reached,
  assignments_key, assignments_timestamp_key,
}
use lag_radar.Distributed.State.Instances.{
  registered, listed, is_active, register_instance, update_heartbeat, get_active_instances,
}
use lag_radar.Distributed.State.Heartbeat.{none_yet, beat, beating_instance_not_active}
use lag_radar.Distributed.State.Windows.{store_partition_window, get_partition_window}
use lag_radar.Distributed.State.Kept.{none_stored, then_stored, store_get_partition_window}
use lag_radar.Distributed.State.Assignments.{
  marshal_assignments, assignment_commands, unmarshal_assignments, store_assignments,
  get_assignments,
}
use lag_radar.Distributed.State.Pages.{last_page, active_at, active_on, get_active_instances_lem}
use lag_radar.Distributed.State.Encoded.{Survives}
use lag_radar.Distributed.State.Freshness.{stored, stamped, store_get_assignments}
use lag_radar.Tests.{seen, orders, billing, local}
use lag_radar.Tests.Server.{
  Server, run_all, server, content, server-IsExpiring, server-IsSeparate, server-IsTransactional,
  config, blank,
}

-- A JSON for one instance, one window, and lists of groups whose names have no slashes.
abbrev json : Json
json = record {
  marshal_info = λ info. ok info.id;
  unmarshal_info = λ id. ok (registered id (pos 0));
  marshal_groups = λ groups. ok (join_slashes groups);
  unmarshal_groups = λ payload. ok (split_slashes payload);
  marshal_records = λ records. ok [];
  unmarshal_records = λ payload. ok (seen (pos 4) (pos 1) 2 ∷ []);
}

abbrev joined : Server
joined = (register_instance server json config (pos 0) local blank).1

abbrev beaten : Server
beaten = (update_heartbeat server json config (pos (3 * minute)) local joined).1

beating_instance_not_active_example :
    get_active_instances server json config (pos (4 * minute)) (pos (2 * minute)) beaten
    ≡ ([], none)
unfolding register_instance update_heartbeat instance_key str_eq ◌+ℤ◌ ◌-ℤ◌ sub_time registered
beating_instance_not_active_example =
    beating_instance_not_active server content server-IsExpiring json config local (pos 0)
      (pos (3 * minute)) (pos (4 * minute)) (pos (2 * minute)) blank joined beaten refl refl refl
      (beat (pos (3 * minute)) beaten none_yet (omega arith) refl refl) (omega arith) refl refl refl
      refl

abbrev of_orders : Server
of_orders =
    (store_partition_window server json config (pos 0) orders (seen (pos 4) (pos 1) 2 ∷ []) blank).1

abbrev of_both : Server
of_both =
    (store_partition_window server json config (pos second) billing (seen (pos 9) (pos 0) 3 ∷ [])
      of_orders).1

store_get_partition_window_example :
    get_partition_window server json config (pos minute) orders of_both
    ≡ ok (seen (pos 4) (pos 1) 2 ∷ [])
unfolding store_partition_window window_key str_eq ◌+ℤ◌
store_get_partition_window_example =
    store_get_partition_window server content server-IsExpiring server-IsSeparate json config orders
      (pos 0) (pos minute) (seen (pos 4) (pos 1) 2) [] blank of_both refl refl refl
      (then_stored (pos second) billing (seen (pos 9) (pos 0) 3 ∷ []) none_stored
        (inl (λ h. ground arith)))
      (omega arith) refl refl

abbrev assigned : Map (List Str)
assigned = (local, orders ∷ billing ∷ []) ∷ []

timed : ltb_ℤ (pos 0) (add_i64 config.assignment_timeout config.assignment_timeout) ≡ true
unfolding add_i64 wrap ◌+ℤ◌
timed = refl

abbrev of_assigned : Server
of_assigned = stored server server-IsTransactional json config timed (1_000 * second) assigned blank

fits : 1_000 * second < 2 ^ 63
fits = omega arith

survives : Survives server json config (orders ∷ billing ∷ [])
unfolding join_slashes split_slashes
survives = (codes "orders/billing", refl, refl)

-- The timestamp is older than the timeout, and still there; later it is gone.
store_get_assignments_example :
    (found : Map (List Str)) × (get_assignments server json config
        (pos (2_000 * second))
        of_assigned
      ≡ err (
          assignments_expired (
            stamped server server-IsTransactional json config timed
              (1_000 * second)
              assigned
              blank)))
    × (lookup local found ≡ lookup local assigned)
unfolding store_assignments marshal_assignments lookup join_slashes split_slashes unix add_i64 wrap
    sub_time ◌+ℤ◌ ◌-ℤ◌ ◌*ℤ◌
store_get_assignments_example =
    store_get_assignments server server-IsTransactional json config timed (1_000 * second) assigned
      blank (pos (2_000 * second)) local fits (omega arith) (refl, tt) (survives, tt) refl refl refl

returned_again : get_assignments server json config (pos (3_000 * second)) of_assigned ≡ ok assigned
unfolding store_assignments marshal_assignments lookup join_slashes split_slashes unix add_i64 wrap
    sub_time ◌+ℤ◌ ◌-ℤ◌ ◌*ℤ◌ get_assignments assignment_commands assignments_key
    assignments_timestamp_key unmarshal_assignments run_all insert str_eq
returned_again = refl

-- A server whose scan still lists an instance that is gone when the pipeline asks for it.
abbrev late_server : KeyValue Server
late_server = record server {
  scan = λ now cursor match s. ok (instance_key config local ∷ instance_key config orders ∷ [], 0);
  get_each = λ now keys s. (some missing, map (λ k. content s k now) keys);
}

-- The other instance is active for two minutes after it has registered.
get_active_instances_lem_example :
    ((1 ≤ 100)
      × (get_active_instances late_server json config (pos minute) (pos (2 * minute)) joined
          ≡ (local ∷ [], none)))
    ⊎ ((100 < 1)
        × ((get_active_instances late_server json config (pos minute) (pos (2 * minute)) joined).1
            ≡ some max_iterations_reached))
unfolding active_on active_at listed register_instance instance_key str_eq ◌+ℤ◌ ◌-ℤ◌ sub_time
    registered is_active
get_active_instances_lem_example =
    get_active_instances_lem late_server content json config (pos minute) (pos (2 * minute)) joined
      (last_page (instance_key config local ∷ instance_key config orders ∷ []) refl)
      ((inr refl, refl), tt)
