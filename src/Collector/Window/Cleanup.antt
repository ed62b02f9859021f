-- ===== src/Collector/Window/Cleanup.antt =====
-- `CleanupOldWindows`: which windows it removes.
use lag_radar.Base.{
  true, ◌≡◌, refl, ap, ◌∙◌, Bool, false, [], ◌∷◌, ◌++◌, Option, none, some, arith, if◌then◌else◌,
  append_assoc, All, All-map,
}
use lag_radar.Base.Int.{ℤ}
use lag_radar.Base.Text.{Str, colon, NoColon}
use lag_radar.Base.Map.{Map, lookup, retain, lookup-retain}
use lag_radar.Collector.Window.{Windows, window_key, before_colon, is_set, cleanup_old_windows}

pub before_colon_lem : (a rest : Str) → NoColon a → before_colon (a ++ (colon ∷ rest)) ≡ some a
unfolding before_colon
before_colon_lem [] rest h = refl
before_colon_lem (c ∷ a) rest h = ground (arith, before_colon_lem a rest h.1)

-- Every key of the map has a colon.
abbrev pub HasColons : Windows → Type 0
HasColons = All λ e. (g : Str) × (before_colon e.0 ≡ some g)

prefix_active : Map Bool → Option Str → Bool
prefix_active active_groups none = false
prefix_active active_groups (some g) = is_set (lookup g active_groups)

-- The test that a key passes to be kept.
abbrev keeps : Map Bool → Str → Bool
keeps active_groups key = prefix_active active_groups (before_colon key)

cleanup-eq-retain :
    (active_groups : Map Bool) (windows : Windows)
    → HasColons windows
    → cleanup_old_windows active_groups windows ≡ some (retain (keeps active_groups) windows)
unfolding cleanup_old_windows retain prefix_active
cleanup-eq-retain active_groups [] h = refl
cleanup-eq-retain active_groups ((key, w) ∷ windows) h =
    rw (h.0.1, cleanup-eq-retain active_groups windows h.1)

-- On windows whose keys have a colon each, a cleanup does not panic, and of the windows of a group
-- it keeps those that it keeps for the part of the group's name before its first colon: all of them
-- if that part is an active group, and none if not.
pub cleanup_lem :
    (active_groups : Map Bool) (windows : Windows)
    → HasColons windows
    → (kept : Windows) × (cleanup_old_windows active_groups windows ≡ some kept)
      × ((key g : Str)
          → before_colon key ≡ some g
          → lookup key kept
            ≡ (if is_set (lookup g active_groups) then lookup key windows else none))
unfolding prefix_active
cleanup_lem active_groups windows h = (
  retain (keeps active_groups) windows,
  cleanup-eq-retain active_groups windows h,
  λ key g b. lookup-retain (keeps active_groups) key windows ∙ rw b,
)

-- On windows whose keys have a colon each a cleanup does not panic, and a group whose name has no
-- colon keeps its windows exactly when it is active.
pub cleanup_group :
    (active_groups : Map Bool) (windows : Windows) (g t : Str) (p : ℤ)
    → HasColons windows
    → NoColon g
    → (kept : Windows) × (cleanup_old_windows active_groups windows ≡ some kept)
      × (lookup (window_key g t p) kept
          ≡ (if is_set (lookup g active_groups) then lookup (window_key g t p) windows else none))
unfolding window_key
cleanup_group active_groups windows g t p h colonless =
    let (kept, done, keys) = cleanup_lem active_groups windows h in
    (kept, done, keys (window_key g t p) g (before_colon_lem g _ colonless))

-- A group with a colon in its name loses all its windows in a cleanup, also when it is active, unless
-- the part of its name before the first colon is an active group itself.
pub cleanup_drops_colon_group :
    (active_groups : Map Bool) (windows : Windows) (a b t : Str) (p : ℤ)
    → HasColons windows
    → NoColon a
    → is_set (lookup a active_groups) ≡ false
    → (kept : Windows) × (cleanup_old_windows active_groups windows ≡ some kept)
      × (lookup (window_key (a ++ (colon ∷ b)) t p) kept ≡ none)
unfolding window_key
cleanup_drops_colon_group active_groups windows a b t p h colonless off =
    let (kept, done, keys) = cleanup_lem active_groups windows h in
    let key = window_key (a ++ (colon ∷ b)) t p in
    let prefix : before_colon key ≡ some a = rw append_assoc (before_colon_lem a _ colonless) in
    (kept, done, keys key a prefix ∙ rw off)

retain-All :
    {V : Type 0} (keep : Str → Bool) (m : Map V) → All (λ e. keep e.0 ≡ true) m → retain keep m ≡ m
unfolding retain
retain-All keep [] h = refl
retain-All keep ((k, v) ∷ m) h = rw (h.0, retain-All keep m h.1)

-- A cleanup changes nothing where the name before the first colon of every key is an active group.
pub cleanup_keeps_All :
    (active_groups : Map Bool) (windows : Windows)
    → All
        (λ e. (g : Str) × (before_colon e.0 ≡ some g) × (is_set (lookup g active_groups) ≡ true))
        windows
    → cleanup_old_windows active_groups windows ≡ some windows
unfolding prefix_active
cleanup_keeps_All active_groups windows h =
    cleanup-eq-retain active_groups windows (All-map _ _ (λ e k. (k.0, k.1)) windows h)
    ∙ ap some (retain-All (keeps active_groups) windows (All-map _ _ (λ e k. rw k.1 k.2) windows h))
