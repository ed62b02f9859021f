-- ===== src/Distributed/State/Pages.antt =====
-- The scan for active instances over several pages.
use lag_radar.Base.{
  ℕ, zero, suc, ◌≤◌, ◌<◌, ◌≡◌, refl, sym, ap, ◌∙◌, List, [], ◌∷◌, ◌++◌, map, Option, none, some,
  arith, append-nil, ◌⊎◌, inl, inr, Bool-cases, leb, append_assoc, length, All,
}
use lag_radar.Base.Text.{Str, codes}
use lag_radar.Base.Clock.{Time, Duration}
use lag_radar.Base.Result.{ok}
use lag_radar.Distributed.Types.{StateStoreConfig}
use lag_radar.Distributed.State.Interface.{
  missing, KeyValue, Json, max_iterations_reached, instance_key,
}
use lag_radar.Distributed.State.Instances.{
  read_page, listed, read_instances, scan_instances, get_active_instances,
}

module _ {S : Type 0} (redis : KeyValue S) (content : S → Str → Time → Option Str) (json : Json)
    (config : StateStoreConfig) (now : Time) (timeout : Duration) (s : S) where
  -- A scan from a cursor gives pages of keys, of which the last has the cursor 0.
  pub data Scans : ℕ → List (List Str) → Type 0 where
    last_page :
        {cursor : ℕ} (keys : List Str)
        → redis.scan now cursor (instance_key config (codes "*")) s ≡ ok (keys, 0)
        → Scans cursor (keys ∷ [])
    next_page :
        {cursor next : ℕ} (keys : List Str) {pages : List (List Str)}
        → redis.scan now cursor (instance_key config (codes "*")) s ≡ ok (keys, suc next)
        → Scans (suc next) pages
        → Scans cursor (keys ∷ pages)

  -- The pipeline for the keys of a page finds for each of them its value, or that there is none. Its
  -- error is nil, or that of a missing key.
  abbrev pub IsAnswered : List Str → Type 0
  IsAnswered keys =
      (((redis.get_each now keys s).0 ≡ none) ⊎ ((redis.get_each now keys s).0 ≡ some missing))
      × ((redis.get_each now keys s).1 ≡ map (λ k. content s k now) keys)

  -- The identifiers of the instances among the values of keys that are active, in their order.
  unfoldable pub active_at : List Str → List Str
  active_at [] = []
  active_at (key ∷ keys) =
      listed redis json config now timeout (content s key now) ++ active_at keys

  -- Those of all the pages.
  unfoldable pub active_on : List (List Str) → List Str
  active_on [] = []
  active_on (keys ∷ pages) = active_at keys ++ active_on pages

  read_instances_lem :
      (keys found : List Str)
      → read_instances redis json config now timeout (map (λ k. content s k now) keys) found
        ≡ found ++ active_at keys
  unfolding read_instances active_at
  read_instances_lem [] found = sym (append-nil found)
  read_instances_lem (key ∷ keys) found =
      read_instances_lem keys (found ++ listed redis json config now timeout (content s key now))
      ∙ append_assoc found (listed redis json config now timeout (content s key now))
          (active_at keys)

  read_page_lem :
      (keys found : List Str)
      → IsAnswered keys
      → read_page redis json config now timeout s keys found ≡ ok (found ++ active_at keys)
  unfolding read_page active_at
  read_page_lem [] found answered = rw (append-nil found)
  read_page_lem (key ∷ keys) found (inl fine, answers) =
      rw (fine, answers) (ap ok (read_instances_lem (key ∷ keys) found))
  read_page_lem (key ∷ keys) found (inr gone, answers) =
      rw (gone, answers) (ap ok (read_instances_lem (key ∷ keys) found))

  scan_instances-enough :
      {cursor : ℕ} {pages : List (List Str)} (left : ℕ) (found : List Str)
      → Scans cursor pages
      → All IsAnswered pages
      → length pages ≤ left
      → scan_instances redis json config now timeout s left cursor found
        ≡ (found ++ active_on pages, none)
  unfolding scan_instances active_on
  scan_instances-enough zero found (last_page keys scanned) h few = absurd (omega arith)
  scan_instances-enough {cursor} (suc left) found (last_page keys scanned) h few =
      rw (scanned, scan_instances, read_page_lem keys found h.0, append-nil (active_at keys)) refl
  scan_instances-enough zero found (next_page keys scanned scans) h few = absurd (omega arith)
  scan_instances-enough {cursor} (suc left) found (next_page {next} keys {pages} scanned scans) h
        few =
      rw (scanned, scan_instances, read_page_lem keys found h.0)
        (scan_instances-enough left (found ++ active_at keys) scans h.1 (omega arith)
          ∙ ap (λ (l : List Str). (l, none))
              (append_assoc found (active_at keys) (active_on pages)))

  scan_instances-short :
      {cursor : ℕ} {pages : List (List Str)} (left : ℕ) (found : List Str)
      → Scans cursor pages
      → All IsAnswered pages
      → left < length pages
      → (scan_instances redis json config now timeout s left cursor found).1
        ≡ some max_iterations_reached
  unfolding scan_instances
  scan_instances-short zero found scans h many = refl
  scan_instances-short (suc left) found (last_page keys scanned) h many = absurd (omega arith)
  scan_instances-short {cursor} (suc left) found (next_page {next} keys {pages} scanned scans) h
        many =
      rw (scanned, scan_instances, read_page_lem keys found h.0)
        (scan_instances-short left (found ++ active_at keys) scans h.1 (omega arith))

  -- A scan from the start gives pages of keys, and the pipeline of each page finds the values of its keys,
  -- of which some may be missing by then. If there are at most 100 pages, the active instances are
  -- those among the values of all the keys, in their order, without an error; and if there are
  -- more, the error is that of too many iterations.
  pub get_active_instances_lem :
      {pages : List (List Str)}
      → Scans 0 pages
      → All IsAnswered pages
      → ((length pages ≤ 100)
          × (get_active_instances redis json config now timeout s ≡ (active_on pages, none)))
        ⊎ ((100 < length pages)
            × ((get_active_instances redis json config now timeout s).1
                ≡ some max_iterations_reached))
  unfolding get_active_instances
  get_active_instances_lem {pages} scans answered = elim (Bool-cases (leb (length pages) 100)) [
    | inl few ↦ inl (ground arith, scan_instances-enough 100 [] scans answered (ground arith))
    | inr many ↦ inr (ground arith, scan_instances-short 100 [] scans answered (ground arith))
  ]
