-- ===== src/Distributed/State/Kept.antt =====
-- A stored window, read back after windows of other partitions were stored.
use lag_radar.Base.{
  ℕ, ◌≡◌, refl, ap, ◌∙◌, ◌≢◌, ◌⊎◌, inl, inr, true, List, [], ◌∷◌, ◌++◌, none, some, arith, Option,
}
use lag_radar.Base.Int.{◌+ℤ◌, ◌≤ℤ◌, ltb_ℤ}
use lag_radar.Base.Text.{Str, codes}
use lag_radar.Base.Clock.{Time, Duration}
use lag_radar.Base.Result.{ok, Result-cases}
use lag_radar.Collector.Types.{OffsetRecord}
use lag_radar.Distributed.Types.{StateStoreConfig}
use lag_radar.Distributed.State.Interface.{KeyValue, Json, bare, window_key}
use lag_radar.Distributed.State.Heartbeat.{IsExpiring}
use lag_radar.Distributed.State.Windows.{store_partition_window, get_partition_window}

-- What the windows rely on besides: `GET` answers the value that is there, and `SET` of another key
-- does not touch it.
pub record IsSeparate {S : Type 0} (redis : KeyValue S) (content : S → Str → Time → Option Str)
    : Type 0 where
  pub get-content :
      (now : Time) (key : Str) (s : S) {v : Option Str}
      → redis.get now key s ≡ ok v
      → v ≡ content s key now
  pub content-set_other :
      (now later : Time) (key other v : Str) (ttl : Duration) (s : S)
      → other ≢ key
      → content (redis.set_key now other v ttl s).1 key later ≡ content s key later

append_cancel : (p : Str) {s t : Str} → p ++ s ≡ p ++ t → s ≡ t
append_cancel [] h = h
append_cancel (c ∷ p) h = append_cancel p (ground arith)

window_key_cancel :
    (config : StateStoreConfig) (j k : Str) → window_key config j ≡ window_key config k → j ≡ k
unfolding window_key
window_key_cancel config j k h = append_cancel (config.prefix ++ codes ":window:") h

bare-state : {S : Type 0} (r : Option ℕ × S) → (bare r).1 ≡ r.1
bare-state (none, s) = refl
bare-state (some e, s) = refl

bare_fine : {S : Type 0} (r : Option ℕ × S) → (bare r).0 ≡ none → r.0 ≡ none
bare_fine (none, s) h = refl
bare_fine (some e, s) h = absurd (ground arith)

module _ {S : Type 0} (redis : KeyValue S) (content : S → Str → Time → Option Str)
    (laws : IsExpiring redis content) (apart : IsSeparate redis content) (json : Json)
    (config : StateStoreConfig) (key : Str) where
  -- Windows are stored from a state on, with or without an error: those of other keys, or empty ones.
  pub data OthersStored (s : S) : S → Type 0 where
    none_stored : OthersStored s s
    then_stored :
        {after : S} (now : Time) (other : Str) (records : List OffsetRecord)
        → OthersStored s after
        → (other ≢ key) ⊎ (records ≡ [])
        → OthersStored s (store_partition_window redis json config now other records after).1

  abbrev stored_value : S → Time → Option Str
  stored_value s later = content s (window_key config key) later

  store_partition_window_other :
      (now later : Time) (other : Str) (records : List OffsetRecord) (s : S)
      → (other ≢ key) ⊎ (records ≡ [])
      → stored_value (store_partition_window redis json config now other records s).1 later
        ≡ stored_value s later
  unfolding store_partition_window
  store_partition_window_other now later other [] s h = refl
  store_partition_window_other now later other (r ∷ records) s (inr h) = absurd (ground arith)
  store_partition_window_other now later other (r ∷ records) s (inl h) =
      elim (Result-cases (json.marshal_records (r ∷ records))) [
        | inr (e, failed) ↦ rw failed refl
        | inl (payload, made) ↦ rw made (
            ap (λ t. content t (window_key config key) later) (bare-state _)
            ∙ apart.content-set_other now later (window_key config key) (window_key config other)
                payload config.partition_window_ttl s
                (λ same. h (window_key_cancel config other key same)))
      ]

  OthersStored-stored_value :
      {s after : S} (later : Time)
      → OthersStored s after
      → stored_value after later ≡ stored_value s later
  OthersStored-stored_value later none_stored = refl
  OthersStored-stored_value later (then_stored {after} now other records stored h) =
      store_partition_window_other now later other records after h
      ∙ OthersStored-stored_value later stored

  -- A window that is not empty is stored without an error, its records survive JSON, and then windows of
  -- other partitions, and empty ones of any, are stored: before the time of a window is over, a read
  -- that Redis answers returns its records.
  pub store_get_partition_window :
      (now later : Time) (r : OffsetRecord) (records : List OffsetRecord) (s after : S)
      {payload : Str} {v : Option Str}
      → json.marshal_records (r ∷ records) ≡ ok payload
      → json.unmarshal_records payload ≡ ok (r ∷ records)
      → (store_partition_window redis json config now key (r ∷ records) s).0 ≡ none
      → OthersStored (store_partition_window redis json config now key (r ∷ records) s).1 after
      → now ≤ℤ later
      → ltb_ℤ later (now +ℤ config.partition_window_ttl) ≡ true
      → redis.get later (window_key config key) after ≡ ok v
      → get_partition_window redis json config later key after ≡ ok (r ∷ records)
  unfolding store_partition_window get_partition_window
  store_get_partition_window now later r records s after {payload} {v} encoded decoded done stored
        from until read =
      let set = redis.set_key now (window_key config key) payload config.partition_window_ttl s in
      let fine : set.0 ≡ none = bare_fine set (rw encoded at done) in
      let first : (store_partition_window redis json config now key (r ∷ records) s).1 ≡ set.1 =
        rw encoded (bare-state set) in
      let value : v ≡ some payload =
        apart.get-content later (window_key config key) after read
        ∙ OthersStored-stored_value later stored
        ∙ ap (λ t. content t (window_key config key) later) first
        ∙ laws.content-set now later (window_key config key) payload config.partition_window_ttl s
            fine from until in
      rw (read, value, decoded) refl
