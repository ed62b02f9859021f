-- ===== src/Api/Ready.antt =====
-- The readiness probe over all clusters.
use lag_radar.Base.{
  ◌≡◌, refl, ap, ◌∙◌, ◌↔◌, ◌⊎◌, true, false, [], ◌∷◌, none, some, length, arith, Bool-cases, inl,
  inr, ltb, ◌==◌,
}
use lag_radar.Base.Text.{Str, str_eq, str_eq_iff, str_eq_refl}
use lag_radar.Base.Map.{Map, Distinct, lookup, some_injective}
use lag_radar.Collector.Cycle.{is_ready}
use lag_radar.Cluster.{CollectorCluster, Manager, get_cluster}
use lag_radar.Api.{count_ready, cluster_ready}

lookup-empty : {V : Type 0} (n : Str) (m : Map V) → (length m == 0) ≡ true → lookup n m ≡ none
unfolding lookup
lookup-empty n [] h = refl
lookup-empty n (e ∷ m) h = absurd (ground arith)

module _ {F H : Type 0} where
  -- A cluster that is found by its name is ready.
  abbrev pub SomeReady : Map (CollectorCluster F H) → Type 0
  SomeReady clusters =
      (n : Str) × (cluster : CollectorCluster F H) × (lookup n clusters ≡ some cluster)
      × (is_ready cluster.state ≡ true)

  count_ready-SomeReady :
      (clusters : Map (CollectorCluster F H))
      → Distinct clusters
      → ltb 0 (count_ready clusters) ≡ true
      → SomeReady clusters
  unfolding count_ready lookup
  count_ready-SomeReady [] d h = absurd (ground arith)
  count_ready-SomeReady ((name, cluster) ∷ clusters) d h =
      elim (Bool-cases (is_ready cluster.state)) [
        | inl ready ↦ (name, cluster, rw (str_eq_refl name) refl, ready)
        | inr idle ↦
            let (n, found, there, ready) = count_ready-SomeReady clusters d.1 (rw idle at h) in
            let apart : str_eq name n ≡ false = elim (Bool-cases (str_eq name n)) [
              | inr that ↦ that
              | inl this ↦ absurd (cc (d.0, there, (str_eq_iff name n).0 this))
            ] in
            (n, found, rw apart there, ready)
      ]

  SomeReady-count_ready :
      (n : Str) (cluster : CollectorCluster F H) (clusters : Map (CollectorCluster F H))
      → lookup n clusters ≡ some cluster
      → is_ready cluster.state ≡ true
      → ltb 0 (count_ready clusters) ≡ true
  unfolding count_ready lookup
  SomeReady-count_ready n cluster [] there ready = absurd (ground arith)
  SomeReady-count_ready n cluster ((name, other) ∷ clusters) there ready =
      elim (Bool-cases (is_ready other.state)) [
        | inl first ↦ rw first (ground arith)
        | inr idle ↦ elim (Bool-cases (str_eq name n)) [
          | inl this ↦
              let same : other ≡ cluster = some_injective (rw this at there) in
              rw (ap (λ c. is_ready c.state) same ∙ ready) (ground arith)
          | inr that ↦ rw idle (SomeReady-count_ready n cluster clusters (rw that at there) ready)
        ]
      ]

  -- The readiness probe answers 200 exactly if some cluster is ready, and else 503.
  pub cluster_ready_iff :
      (m : Manager F H)
      → Distinct m.clusters
      → (((cluster_ready m).code ≡ 200) ↔ (
          (n : Str) × (cluster : CollectorCluster F H) × (get_cluster n m ≡ some cluster)
          × (is_ready cluster.state ≡ true)))
        × (((cluster_ready m).code ≡ 200) ⊎ ((cluster_ready m).code ≡ 503))
  unfolding cluster_ready get_cluster
  cluster_ready_iff m d = elim (Bool-cases (length m.clusters == 0)) [
    | inl no_cluster ↦ rw no_cluster (
      (
        (λ h. absurd (ground arith)),
        (λ (n, cluster, there, ready). absurd (cc (there, lookup-empty n m.clusters no_cluster))),
      ),
      inr refl,
    )
    | inr clusters ↦ elim (Bool-cases (ltb 0 (count_ready m.clusters))) [
      | inl counted ↦
          rw (clusters, counted)
            (((λ h. count_ready-SomeReady m.clusters d counted), (λ h. refl)), inl refl)
      | inr idle ↦
          rw (clusters, idle)
            (
              (
                (λ h. absurd (ground arith)),
                (λ (n, cluster, there, ready).
                    absurd (cc (idle, SomeReady-count_ready n cluster m.clusters there ready))),
              ),
              inr refl,
            )
    ]
  ]
