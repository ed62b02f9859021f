-- ===== src/Collector/Window.antt =====
-- internal/collector/collector.go: `addToWindow`, `getWindowRecords` and `CleanupOldWindows`, on the
-- map `windows`. The locks make each of them one step.
pub mod Sliding
pub mod Schedules
pub mod Keys
pub mod Cleanup
use lag_radar.Base.{
  ◌≡◌, Bool, true, false, List, [], ◌∷◌, ◌++◌, Option, none, some, ltb, ◌==◌, if◌then◌else◌, length,
  drop,
}
use mathlib.Core.Option
use lag_radar.Base.Int.{ℤ}
use lag_radar.Base.Text.{Str, colon, itoa}
use lag_radar.Base.Map.{Map, lookup, insert}
use lag_radar.Collector.Types.{OffsetRecord, PartitionWindow, Config}

abbrev pub Windows : Type 0
Windows = Map PartitionWindow

-- `fmt.Sprintf("%s:%s:%d", groupID, topic, partition)`
unfoldable pub window_key : Str → Str → ℤ → Str
window_key group_id topic partition = group_id ++ (colon ∷ (topic ++ (colon ∷ itoa partition)))

unfoldable pub push_record : PartitionWindow → OffsetRecord → PartitionWindow
push_record w r =
    let records = w.records ++ r ∷ [] in
    record w { records = if ltb w.window_size (length records) then drop 1 records else records }

module _ {F : Type 0} where
  abbrev pub window_or_new : Config F → Option PartitionWindow → PartitionWindow
  window_or_new config none = record { records = []; window_size = config.window_size }
  window_or_new config (some w) = w

  unfoldable pub add_to_window : Config F → Str → OffsetRecord → Windows → Windows
  add_to_window config key r windows =
      insert key (push_record (window_or_new config (lookup key windows)) r) windows

abbrev pub records_of : Option PartitionWindow → List OffsetRecord
records_of none = []
records_of (some w) = w.records

unfoldable pub get_window_records : Str → Windows → List OffsetRecord
get_window_records key windows = records_of (lookup key windows)

-- `key[:strings.Index(key, ":")]`; without a colon the slice expression panics, which is `none`.
unfoldable pub before_colon : Str → Option Str
before_colon [] = none
before_colon (c ∷ cs) = if c == colon then some [] else Option.map (λ s. c ∷ s) (before_colon cs)

-- A `map[string]bool`: a key that is missing is `false`.
abbrev pub is_set : Option Bool → Bool
is_set none = false
is_set (some b) = b

abbrev or_panic {ℓ κ} : {A : Type ℓ} {B : Type κ} → Option A → (A → Option B) → Option B
or_panic none k = none
or_panic (some a) k = k a

-- `none` is a panic.
unfoldable pub cleanup_old_windows : Map Bool → Windows → Option Windows
unfolding before_colon
cleanup_old_windows active_groups [] = some []
cleanup_old_windows active_groups ((key, w) ∷ windows) =
    let rest = cleanup_old_windows active_groups windows in
    or_panic (before_colon key) λ group_id.
      or_panic rest
        λ kept. some (if is_set (lookup group_id active_groups) then (key, w) ∷ kept else kept)
