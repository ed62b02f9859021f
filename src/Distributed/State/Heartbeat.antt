-- ===== src/Distributed/State/Heartbeat.antt =====
-- Heartbeats of a registered instance, and whether the instance is then listed as active.
use lag_radar.Base.{
  ℕ, zero, suc, ◌≡◌, true, false, List, [], ◌∷◌, map, Option, none, some, arith, inl, inr, ◌==◌,
}
use lag_radar.Base.Int.{◌+ℤ◌, ◌≤ℤ◌, ltb_ℤ}
use lag_radar.Base.Text.{Str, codes}
use lag_radar.Base.Clock.{Time, Duration, sub_time}
use lag_radar.Base.Result.{ok, Result-cases}
use lag_radar.Distributed.Types.{StateStoreConfig}
use lag_radar.Distributed.State.Interface.{KeyValue, Json, instance_key, bare}
use lag_radar.Distributed.State.Instances.{
  registered, is_active, register_instance, update_heartbeat, get_active_instances, scan_instances,
  read_instances, listed,
}

-- What the instances rely on of Redis: `content s k t` is the value of the key `k` at the time `t` if
-- nothing is written from the state `s` on.
pub record IsExpiring {S : Type 0} (redis : KeyValue S) (content : S → Str → Time → Option Str)
    : Type 0 where
  -- A value that is set lasts for its time.
  pub content-set :
      (now later : Time) (key v : Str) (ttl : Duration) (s : S)
      → (redis.set_key now key v ttl s).0 ≡ none
      → now ≤ℤ later
      → ltb_ℤ later (now +ℤ ttl) ≡ true
      → content (redis.set_key now key v ttl s).1 key later ≡ some v
  -- `EXPIRE` gives the value that is there a new time, and leaves it as it is.
  pub content-expire :
      (now later : Time) (key v : Str) (ttl : Duration) (s : S)
      → (redis.expire now key ttl s).0 ≡ none
      → content s key now ≡ some v
      → now ≤ℤ later
      → ltb_ℤ later (now +ℤ ttl) ≡ true
      → content (redis.expire now key ttl s).1 key later ≡ some v
  -- `EXISTS` counts 0 only where there is no value.
  pub exists-content :
      (now : Time) (key v : Str) (s : S)
      → content s key now ≡ some v
      → ¬ (redis.exists now key s ≡ ok 0)
  -- A pipeline that succeeds answers with the values.
  pub get_each-content :
      (now : Time) (keys : List Str) (s : S)
      → (redis.get_each now keys s).0 ≡ none
      → (redis.get_each now keys s).1 ≡ map (λ k. content s k now) keys

module _ {S : Type 0} (redis : KeyValue S) (content : S → Str → Time → Option Str)
    (laws : IsExpiring redis content) (json : Json) (config : StateStoreConfig) (id : Str) where
  -- Successful heartbeats from a time and a state on, each before the time of the key is over.
  pub data Beats (t : Time) (s : S) : Time → S → Type 0 where
    none_yet : Beats t s t s
    beat :
        {u : Time} {after : S} (v : Time) (next : S)
        → Beats t s u after
        → u ≤ℤ v
        → ltb_ℤ v (u +ℤ config.instance_ttl) ≡ true
        → update_heartbeat redis json config v id after ≡ (none, next)
        → Beats t s v next

  -- The key of the instance has the value `v` from a time on, for the time of a key.
  abbrev pub Holds : Str → Time → S → Type 0
  Holds v u s =
      (later : Time)
      → u ≤ℤ later
      → ltb_ℤ later (u +ℤ config.instance_ttl) ≡ true
      → content s (instance_key config id) later ≡ some v

  pub bare-none :
      (r : Option ℕ × S) (next : S) → bare r ≡ (none, next) → (r.0 ≡ none) × (r.1 ≡ next)
  bare-none (none, s) next h = ground arith
  bare-none (some e, s) next h = absurd (ground arith)

  -- With the key there, a heartbeat is an `EXPIRE`.
  update_heartbeat_of_content :
      (v : Time) (s next : S) (value : Str)
      → content s (instance_key config id) v ≡ some value
      → update_heartbeat redis json config v id s ≡ (none, next)
      → let r = redis.expire v (instance_key config id) config.instance_ttl s in
        (r.0 ≡ none) × (r.1 ≡ next)
  unfolding update_heartbeat
  update_heartbeat_of_content v s next value there done =
      elim (Result-cases (redis.exists v (instance_key config id) s)) [
        | inl (zero, e) ↦ absurd (laws.exists-content v _ value s there e)
        | inl (suc n, e) ↦
            let counted : (suc n == 0) ≡ false = ground arith in
            bare-none _ next (rw (e, update_heartbeat, counted) at done)
        | inr (e, failed) ↦ absurd (ground arith)
      ]

  -- A heartbeat that finds a value keeps it for the time of a key.
  pub update_heartbeat-Holds :
      (v : Time) (s next : S) (value : Str)
      → content s (instance_key config id) v ≡ some value
      → update_heartbeat redis json config v id s ≡ (none, next)
      → Holds value v next
  update_heartbeat-Holds v s next value there done later from until =
      let (fine, same) = update_heartbeat_of_content v s next value there done in
      let kept = laws.content-expire v later _ value config.instance_ttl s fine there from until in
      rw⁻¹ same kept

  pub Beats-Holds :
      {t : Time} {s : S} {u : Time} {after : S} (value : Str)
      → Holds value t s
      → Beats t s u after
      → Holds value u after
  Beats-Holds value holds none_yet = holds
  Beats-Holds value holds (beat {u} {after} v next beats from until done) =
      update_heartbeat-Holds v after next value (Beats-Holds value holds beats v from until) done

  register_instance-Holds :
      (t : Time) (s next : S) (payload : Str)
      → json.marshal_info (registered id t) ≡ ok payload
      → register_instance redis json config t id s ≡ (none, next)
      → Holds payload t next
  unfolding register_instance
  register_instance-Holds t s next payload encoded done later from until =
      let stored = redis.set_key t (instance_key config id) payload config.instance_ttl s in
      let (fine, same) = bare-none stored next (rw (encoded, register_instance) at done) in
      rw⁻¹ same (laws.content-set t later _ payload config.instance_ttl s fine from until)

  -- An instance whose last written heartbeat is not within the timeout is not listed.
  listed_late :
      (now : Time) (timeout : Duration) (t : Time) (payload : Str)
      → json.unmarshal_info payload ≡ ok (registered id t)
      → ltb_ℤ (sub_time now t) timeout ≡ false
      → listed redis json config now timeout (some payload) ≡ []
  unfolding listed is_active registered
  listed_late now timeout t payload decoded late = rw (decoded, listed, late)

  -- An instance registers, and each of its heartbeats comes in time and succeeds. Where it is the only
  -- one that a scan finds, the list of the active instances is empty as soon as its registration is as
  -- long ago as the timeout, however recent its last heartbeat is.
  pub beating_instance_not_active :
      (t u now : Time) (timeout : Duration) (s first after : S) {payload : Str}
      → json.marshal_info (registered id t) ≡ ok payload
      → json.unmarshal_info payload ≡ ok (registered id t)
      → register_instance redis json config t id s ≡ (none, first)
      → Beats t first u after
      → u ≤ℤ now
      → ltb_ℤ now (u +ℤ config.instance_ttl) ≡ true
      → ltb_ℤ (sub_time now t) timeout ≡ false
      → redis.scan now 0 (instance_key config (codes "*")) after
        ≡ ok (instance_key config id ∷ [], 0)
      → (redis.get_each now (instance_key config id ∷ []) after).0 ≡ none
      → get_active_instances redis json config now timeout after ≡ ([], none)
  unfolding get_active_instances scan_instances read_instances
  beating_instance_not_active t u now timeout s first after {payload} encoded decoded done beats
        from until late scanned fine =
      let holds =
        Beats-Holds payload (register_instance-Holds t s first payload encoded done) beats now from
          until in
      let answers = laws.get_each-content now (instance_key config id ∷ []) after fine in
      rw (
        scanned,
        scan_instances,
        fine,
        answers,
        holds,
        read_instances,
        listed_late now timeout t payload decoded late,
      )
