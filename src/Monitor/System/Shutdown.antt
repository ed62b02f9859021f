-- ===== src/Monitor/System/Shutdown.antt =====
-- What has been started, cancelled and closed when the monitor ends.
use lag_radar.Base.{
  ℕ, ◌+◌, ◌≡◌, refl, sym, ap, ◌∙◌, inl, inr, Bool, false, not, List, [], ◌∷◌, ◌++◌, Option, none,
  some, Bool-cases, Option-cases, if◌then◌else◌, arith,
}
use lag_radar.Base.Text.{Str, str_eq, str_eq_iff}
use lag_radar.Base.Float.{Float64}
use lag_radar.Base.Map.{Map, Distinct, lookup, lookup-insert, lookup-retain}
use lag_radar.Collector.Types.{Config}
use lag_radar.Collector.State.{Collector}
use lag_radar.Cluster.{
  CollectorCluster, ConfigCluster, Effect, started, cancelled, closed, all_cancelled, Manager,
  World, new_cluster, add_cluster, remove_cluster, get_cluster, stop, stop_each,
}
use lag_radar.Cluster.Registry.{add_cluster-cases}
use lag_radar.Monitor.{new_manager}
use lag_radar.Monitor.System.{with_state, Step, added, removed, woken, Reachable, at_start, later}
use lag_radar.Monitor.System.Invariant.{Reachable-IsSound}

-- How many of the effects satisfy a test.
unfoldable pub tally : (Effect → Bool) → List Effect → ℕ
tally test [] = 0
tally test (e ∷ es) = (if test e then 1 else 0) + tally test es

tally-append :
    (test : Effect → Bool) (xs ys : List Effect)
    → tally test (xs ++ ys) ≡ tally test xs + tally test ys
unfolding tally
tally-append test [] ys = omega arith
tally-append test (x ∷ xs) ys = omega (arith, tally-append test xs ys)

abbrev pub starts : Str → Effect → Bool
starts n (started name) = str_eq name n
starts n (cancelled name) = false
starts n (closed name) = false
starts n all_cancelled = false

abbrev pub cancels : Str → Effect → Bool
cancels n (started name) = false
cancels n (cancelled name) = str_eq name n
cancels n (closed name) = false
cancels n all_cancelled = false

abbrev pub closes : Str → Effect → Bool
closes n (started name) = false
closes n (cancelled name) = false
closes n (closed name) = str_eq name n
closes n all_cancelled = false

abbrev pub count_of : {V : Type 0} → Option V → ℕ
count_of none = 0
count_of (some v) = 1

module _ {F H : Type 0} where
  -- Of each name, as many clusters have been started as have been cancelled and closed, and one more
  -- while the manager has it.
  abbrev pub IsBalanced : Manager F H → Type 0
  IsBalanced m =
      (n : Str)
      → (tally (starts n) m.effects ≡ tally (cancels n) m.effects + count_of (get_cluster n m))
        × (tally (starts n) m.effects ≡ tally (closes n) m.effects + count_of (get_cluster n m))

  tally-stop_each :
      (n : Str) (clusters : Map (CollectorCluster F H))
      → Distinct clusters
      → (tally (starts n) (stop_each clusters) ≡ 0)
        × (tally (cancels n) (stop_each clusters) ≡ count_of (lookup n clusters))
        × (tally (closes n) (stop_each clusters) ≡ count_of (lookup n clusters))
  unfolding tally stop_each lookup
  tally-stop_each n [] d = (refl, refl, refl)
  tally-stop_each n ((name, cluster) ∷ clusters) d =
      let (starting, cancelling, closing) = tally-stop_each n clusters d.1 in
      elim (Bool-cases (str_eq name n)) [
        | inl same ↦
            let gone : lookup n clusters ≡ none =
              ap (λ i. lookup i clusters) (sym ((str_eq_iff name n).0 same)) ∙ d.0 in
            let none_left : count_of (lookup n clusters) ≡ 0 = rw gone refl in
            rw same (omega arith, omega arith, omega arith)
        | inr other ↦ rw other (omega arith, omega arith, omega arith)
      ]

module _ {F H : Type 0} ⦃f : Float64 F⦄ (world : World F H) where
  add_cluster-IsBalanced :
      (config : ConfigCluster F) (m : Manager F H)
      → IsBalanced m
      → IsBalanced (add_cluster world config m).1
  unfolding tally get_cluster
  add_cluster-IsBalanced config m balanced n = elim (add_cluster-cases world config m) [
    | inl same ↦ rw same (balanced n)
    | inr (absent, new) ↦
        let (cancelling, closing) = balanced n in
        let new_clusters = lookup-insert config.name n (new_cluster world m config) m.clusters in
        let tallied =
          λ (test : Effect → Bool). tally-append test m.effects (started config.name ∷ []) in
        elim (Bool-cases (str_eq config.name n)) [
          | inl same ↦
              let gone : count_of (lookup n m.clusters) ≡ 0 =
                rw (sym ((str_eq_iff config.name n).0 same), absent) refl in
              rw
                (
                  new,
                  new_clusters,
                  tallied (starts n),
                  tallied (cancels n),
                  tallied (closes n),
                  same,
                )
                (omega arith, omega arith)
          | inr other ↦
              rw
                (
                  new,
                  new_clusters,
                  tallied (starts n),
                  tallied (cancels n),
                  tallied (closes n),
                  other,
                )
                (omega arith, omega arith)
        ]
  ]

  remove_cluster-IsBalanced :
      (name : Str) (m : Manager F H) → IsBalanced m → IsBalanced (remove_cluster name m).1
  unfolding tally get_cluster remove_cluster
  remove_cluster-IsBalanced name m balanced n = elim (Option-cases (lookup name m.clusters)) [
    | inl unknown ↦ rw unknown (balanced n)
    | inr (cluster, there) ↦
        let (cancelling, closing) = balanced n in
        let left = lookup-retain (λ j. not (str_eq name j)) n m.clusters in
        let tallied = λ (test : Effect → Bool).
          tally-append test m.effects (cancelled name ∷ closed name ∷ []) in
        elim (Bool-cases (str_eq name n)) [
          | inl same ↦
              let here : count_of (lookup n m.clusters) ≡ 1 =
                rw (sym ((str_eq_iff name n).0 same), there) refl in
              rw (there, left, tallied (starts n), tallied (cancels n), tallied (closes n), same)
                (omega arith, omega arith)
          | inr other ↦
              rw (there, left, tallied (starts n), tallied (cancels n), tallied (closes n), other)
                (omega arith, omega arith)
        ]
  ]

  with_state-IsBalanced :
      (name : Str) (m : Manager F H) (cluster : CollectorCluster F H) (c : Collector F H)
      → get_cluster name m ≡ some cluster
      → IsBalanced m
      → IsBalanced (with_state name cluster c m)
  unfolding with_state get_cluster
  with_state-IsBalanced name m cluster c there balanced n =
      let (cancelling, closing) = balanced n in
      let replaced = lookup-insert name n (record cluster { state = c }) m.clusters in
      elim (Bool-cases (str_eq name n)) [
        | inl same ↦
            let here : count_of (lookup n m.clusters) ≡ 1 =
              rw (sym ((str_eq_iff name n).0 same), there) refl in
            rw (replaced, same) (omega arith, omega arith)
        | inr other ↦ rw (replaced, other) (balanced n)
      ]

  Step-IsBalanced : {m next : Manager F H} → Step world m next → IsBalanced m → IsBalanced next
  Step-IsBalanced {m} (added config) = add_cluster-IsBalanced config m
  Step-IsBalanced {m} (removed name) = remove_cluster-IsBalanced name m
  Step-IsBalanced {m} (woken name w {cluster} {c} there ran) =
      with_state-IsBalanced name m cluster c there

  Reachable-IsBalanced :
      {config : Config F} {m : Manager F H} → Reachable world config m → IsBalanced m
  unfolding new_manager tally get_cluster lookup
  Reachable-IsBalanced at_start n = (omega arith, omega arith)
  Reachable-IsBalanced (later reached step) n =
      Step-IsBalanced step (Reachable-IsBalanced reached) n

  -- Whatever clusters are added and removed, once the manager is stopped, of each name as many
  -- collectors have been cancelled, and as many closed, as have been started. Before that, one more has
  -- been started than closed if the manager has a cluster of the name, and else as many.
  pub each_collector_closed :
      {config : Config F} {m : Manager F H} (n : Str)
      → Reachable world config m
      → let before = m.effects in
        let after = (stop m).effects in
        (tally (cancels n) after ≡ tally (starts n) after)
        × (tally (closes n) after ≡ tally (starts n) after)
        × (tally (starts n) before ≡ tally (closes n) before + count_of (get_cluster n m))
  unfolding stop tally get_cluster
  each_collector_closed {m = m} n reached =
      let (cancelling, closing) = Reachable-IsBalanced reached n in
      let (none_started, all_cancels, all_closes) =
        tally-stop_each n m.clusters (Reachable-IsSound world reached).0 in
      let tallied = λ (test : Effect → Bool).
        tally-append test m.effects (all_cancelled ∷ stop_each m.clusters) in
      rw (tallied (starts n), tallied (cancels n), tallied (closes n))
        (omega arith, omega arith, closing)
