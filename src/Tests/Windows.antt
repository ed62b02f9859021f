-- ===== src/Tests/Windows.antt =====
-- Windows of size 2, and keys of groups with and without a colon.
use lag_radar.Base.{◌≡◌, refl, true, Bool, [], ◌∷◌, ◌++◌, some, none, arith, if◌then◌else◌}
use lag_radar.Base.Int.{pos}
use lag_radar.Base.Text.{Str, codes, colon, itoa, str_eq}
use lag_radar.Base.Map.{Map, lookup, insert}
use lag_radar.Collector.Types.{PartitionWindow}
use lag_radar.Collector.Window.{
  Windows, window_key, before_colon, cleanup_old_windows, is_set, get_window_records, add_to_window,
  push_record,
}
use lag_radar.Collector.Window.Sliding.{Log, history, latest, add_all, get_window_records-add_all}
use lag_radar.Collector.Window.Schedules.{Schedule, this_one, later_one, all_done, then_call}
use lag_radar.Collector.Window.Keys.{window_key-injective}
use lag_radar.Collector.Window.Cleanup.{HasColons, cleanup_group, cleanup_drops_colon_group}
use lag_radar.Tests.{small, seen, orders, billing}

program : Unit {0}
unfolding window_key before_colon cleanup_old_windows get_window_records add_to_window push_record
    lookup insert itoa
program = tt

abbrev log : Log
log =
    (billing, seen (pos 1) (pos 0) 1)
    ∷ (billing, seen (pos 2) (pos 0) 2)
    ∷ (orders, seen (pos 7) (pos 0) 2)
    ∷ (billing, seen (pos 3) (pos 0) 3)
    ∷ []

last_two :
    get_window_records billing (add_all small [] log)
    ≡ seen (pos 2) (pos 0) 2 ∷ seen (pos 3) (pos 0) 3 ∷ []
unfolding program add_all str_eq
last_two = refl

get_window_records-add_all_example :
    get_window_records billing (add_all small [] log)
    ≡ latest small.window_size (history billing log)
get_window_records-add_all_example = get_window_records-add_all small log billing

window_key-injective_example : (billing ≡ billing) × (orders ≡ orders) × (pos 3 ≡ pos 3)
window_key-injective_example =
    window_key-injective billing billing orders orders (pos 3) (pos 3) (ground arith) (ground arith)
      (omega arith) (omega arith) refl

abbrev billing_eu : Str
billing_eu = billing ++ (colon ∷ codes "eu")

abbrev filled : PartitionWindow
filled = record { records = seen (pos 1) (pos 0) 1 ∷ []; window_size = 2 }

abbrev windows : Windows
windows =
    (window_key billing_eu orders (pos 0), filled) ∷ (window_key orders orders (pos 0), filled) ∷ []

abbrev active_groups : Map Bool
active_groups = (billing_eu, true) ∷ (orders, true) ∷ []

windows-HasColons : HasColons windows
unfolding program
windows-HasColons = ((billing, refl), ((orders, refl), tt))

cleanup_group_example :
    (kept : Windows) × (cleanup_old_windows active_groups windows ≡ some kept)
    × (lookup (window_key orders orders (pos 0)) kept ≡ (
        if is_set (lookup orders active_groups)
        then lookup (window_key orders orders (pos 0)) windows
        else none))
cleanup_group_example =
    cleanup_group active_groups windows orders orders (pos 0) windows-HasColons (ground arith)

-- The group is active, and its window is removed.
cleanup_drops_colon_group_example :
    (kept : Windows) × (cleanup_old_windows active_groups windows ≡ some kept)
    × (lookup (window_key billing_eu orders (pos 0)) kept ≡ none)
unfolding lookup str_eq
cleanup_drops_colon_group_example =
    cleanup_drops_colon_group active_groups windows billing (codes "eu") orders (pos 0)
      windows-HasColons (ground arith) refl

-- Two goroutines, of which the second makes the first call.
abbrev of_billing : Log
of_billing = (billing, seen (pos 4) (pos 0) 4) ∷ (billing, seen (pos 5) (pos 0) 5) ∷ []

abbrev of_orders : Log
of_orders = (orders, seen (pos 8) (pos 0) 4) ∷ []

interleaved : Schedule (of_billing ∷ of_orders ∷ []) (
    (orders, seen (pos 8) (pos 0) 4)
    ∷ (billing, seen (pos 4) (pos 0) 4)
    ∷ (billing, seen (pos 5) (pos 0) 5)
    ∷ [])
interleaved = then_call (later_one of_billing (this_one [] [])) (
    then_call (this_one _ ([] ∷ []))
      (then_call (this_one [] ([] ∷ [])) (all_done (refl, (refl, tt)))))
