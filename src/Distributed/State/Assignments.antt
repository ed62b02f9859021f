-- ===== src/Distributed/State/Assignments.antt =====
-- distributed/state/state_store.go: `StoreAssignments` and `GetAssignments`.
use lag_radar.Base.{ℕ, ◌&&◌, List, [], ◌∷◌, ◌++◌, map, Option, none, some, if◌then◌else◌}
use lag_radar.Base.Int.{pos, ltb_ℤ, ◌*ℤ◌}
use lag_radar.Base.Word.{add_i64}
use lag_radar.Base.Text.{Str, itoa, parse_int}
use lag_radar.Base.Clock.{Time, Duration, second, sub_time, unix}
use lag_radar.Base.Map.{Map}
use lag_radar.Base.Result.{Result, ok, err}
use lag_radar.Distributed.Types.{StateStoreConfig}
use lag_radar.Distributed.State.Interface.{
  Command, del, h_set, set, KeyValue, Json, StateError, marshal_groups_failed,
  store_assignments_failed, assignments_expired, get_assignments_failed, Returned, assignments_key,
  assignments_timestamp_key,
}

-- An assignment whose timestamp is older than the timeout, where there is a timestamp. An error of the
-- call counts as no timestamp.
abbrev pub expired_at : Time → Duration → Result ℕ (Option Str) → Option Time
expired_at now timeout (ok (some stamp)) =
    let seconds = parse_int stamp in
    let at = seconds *ℤ pos second in
    if ltb_ℤ (pos 0) seconds && ltb_ℤ timeout (sub_time now at) then some at else none
expired_at now timeout (ok none) = none
expired_at now timeout (err e) = none

module _ {S : Type 0} (redis : KeyValue S) (json : Json) (config : StateStoreConfig) where
  -- `assignmentData`
  unfoldable pub marshal_assignments : Map (List Str) → Result StateError (Map Str)
  marshal_assignments [] = ok []
  marshal_assignments ((instance, groups) ∷ assignments) =
      let rest = marshal_assignments assignments in
      add_marshalled instance (json.marshal_groups groups) rest
    where
      add_marshalled :
          Str → Result ℕ Str → Result StateError (Map Str) → Result StateError (Map Str)
      add_marshalled instance (err e) rest = err (marshal_groups_failed instance e)
      add_marshalled instance (ok payload) (err e) = err e
      add_marshalled instance (ok payload) (ok rest) = ok ((instance, payload) ∷ rest)

  -- The commands of the transaction of `StoreAssignments`.
  unfoldable pub assignment_commands : Time → Map Str → List Command
  assignment_commands now entries =
      let timeout = config.assignment_timeout in
      del (assignments_key config)
      ∷ (map (λ e. h_set (assignments_key config) e.0 e.1) entries
          ++ set (assignments_timestamp_key config) (itoa (unix now)) (add_i64 timeout timeout)
            ∷ [])

  abbrev pub after_transaction : Option ℕ × S → Returned S
  after_transaction (none, s) = (none, s)
  after_transaction (some e, s) = (some (store_assignments_failed e), s)

  store_marshalled : Time → Result StateError (Map Str) → S → Returned S
  store_marshalled now (err e) s = (some e, s)
  store_marshalled now (ok entries) s =
      after_transaction (redis.transact now (assignment_commands now entries) s)

  unfoldable pub store_assignments : Time → Map (List Str) → S → Returned S
  unfolding store_marshalled
  store_assignments now assignments s = store_marshalled now (marshal_assignments assignments) s

  -- The loop over the hash; what cannot be decoded is left out.
  unfoldable pub unmarshal_assignments : Map Str → Map (List Str)
  unmarshal_assignments [] = []
  unmarshal_assignments ((instance, payload) ∷ entries) =
      let rest = unmarshal_assignments entries in
      add_unmarshalled instance (json.unmarshal_groups payload) rest
    where
      add_unmarshalled : Str → Result ℕ (List Str) → Map (List Str) → Map (List Str)
      add_unmarshalled instance (err e) rest = rest
      add_unmarshalled instance (ok groups) rest = (instance, groups) ∷ rest

  read_assignments : Option Time → Result ℕ (Map Str) → Result StateError (Map (List Str))
  read_assignments (some at) entries = err (assignments_expired at)
  read_assignments none (err e) = err (get_assignments_failed e)
  read_assignments none (ok entries) = ok (unmarshal_assignments entries)

  unfoldable pub get_assignments : Time → S → Result StateError (Map (List Str))
  unfolding read_assignments
  get_assignments now s =
      read_assignments
        (expired_at now config.assignment_timeout
          (redis.get now (assignments_timestamp_key config) s))
        (redis.h_get_all now (assignments_key config) s)
