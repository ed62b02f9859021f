-- ===== src/Monitor/System/Answers.antt =====
-- The answers of the HTTP API in every state that the monitor reaches.
use lag_radar.Base.{
  ◌≡◌, refl, sym, ◌∙◌, ◌↔◌, ◌⊎◌, inl, inr, some, [], ◌∷◌, All, length, ltb, arith, true,
  Option-cases,
}
use lag_radar.Base.Text.{Str, str_eq_refl}
use lag_radar.Base.Strings.{NoSlash}
use lag_radar.Base.Float.{Float64}
use lag_radar.Base.Map.{Map, lookup, lookup-All}
use lag_radar.Base.Result.{ok, err}
use lag_radar.Collector.Types.{Config, GroupStatus}
use lag_radar.Collector.Cycle.{is_ready, get_group_status, get_all_group_statuses}
use lag_radar.Collector.Cycle.Stored.{IsCoherent}
use lag_radar.Cluster.{
  CollectorCluster, Manager, World, GroupStatusCluster, not_found, tagged, get_cluster, get_status,
}
use lag_radar.Cluster.Union.{AllPlain, if_known}
use lag_radar.Api.{get_all_groups_across_clusters, cluster_ready}
use lag_radar.Api.Listing.{listed_in, without_cluster, get_all_groups_across_clusters-get_status}
use lag_radar.Api.Ready.{cluster_ready_iff}
use lag_radar.Monitor.System.{Reachable}
use lag_radar.Monitor.System.Invariant.{Reachable-IsSound}

some_group :
    {V : Type 0} (store : Map V)
    → ltb 0 (length store) ≡ true
    → (g : Str) × (status : V) × (lookup g store ≡ some status)
unfolding lookup
some_group [] h = absurd (ground arith)
some_group ((g, status) ∷ store) h = (g, status, rw (str_eq_refl g) refl)

some_group_stored :
    {V : Type 0} (g : Str) (store : Map V) {status : V}
    → lookup g store ≡ some status
    → ltb 0 (length store) ≡ true
unfolding lookup
some_group_stored g [] found = absurd (ground arith)
some_group_stored g (e ∷ store) found = ground arith

module _ {F H : Type 0} where
  -- The names of the clusters have no slashes.
  abbrev pub PlainNames : Map (CollectorCluster F H) → Type 0
  PlainNames = All λ e. NoSlash e.0

  plain_of :
      (clusters : Map (CollectorCluster F H))
      → PlainNames clusters
      → All (λ e. IsCoherent e.1.state) clusters
      → AllPlain clusters
  unfolding get_all_group_statuses
  plain_of [] names coherent = tt
  plain_of ((name, cluster) ∷ clusters) names coherent =
      ((names.0, coherent.0.0), plain_of clusters names.1 coherent.1)

  get_status_found :
      (n g : Str) (m : Manager F H) {status : GroupStatusCluster F}
      → get_status n g m ≡ ok (some status)
      → (cluster : CollectorCluster F H) × (lookup n m.clusters ≡ some cluster)
        × ((s : GroupStatus F) × (lookup g cluster.state.status_store ≡ some s))
  unfolding get_status get_cluster get_group_status
  get_status_found n g m {status} found = elim (Option-cases (lookup n m.clusters)) [
    | inl unknown ↦
        absurd
          (let refused : err (not_found n) ≡ ok (some status) = rw unknown at found in ground arith)
    | inr (cluster, there) ↦ elim (Option-cases (lookup g cluster.state.status_store)) [
      | inl nothing ↦ absurd (let missing : _ = rw (there, nothing) at found in ground arith)
      | inr stored ↦ (cluster, there, stored)
    ]
  ]

module _ {F H : Type 0} ⦃f : Float64 F⦄ (world : World F H) {config : Config F} {m : Manager F H}
    (reached : Reachable world config m) where
  -- Whatever clusters are added and removed, and whatever Kafka answers to their collections: while the
  -- names of the clusters have no slashes, the aggregated answer lists, for each cluster and each group,
  -- the status that the query of that group in that cluster returns, and nothing for a group or a
  -- cluster that is not there; also where the names of groups have slashes.
  pub reachable_listing :
      (n g : Str)
      → NoSlash n
      → PlainNames m.clusters
      → listed_in n g (get_all_groups_across_clusters m).content
        ≡ without_cluster (if_known (get_status n g m))
  reachable_listing n g plain names =
      let sound = Reachable-IsSound world reached in
      get_all_groups_across_clusters-get_status m n g plain sound.0
        (plain_of m.clusters names sound.1)

  -- Whatever clusters are added and removed, and whatever Kafka answers to their collections: the
  -- readiness probe answers 200 exactly if some group of some cluster has a status, and else 503.
  pub reachable_ready_iff :
      (((cluster_ready m).code ≡ 200) ↔ (
        (n : Str) × (g : Str) × (status : GroupStatusCluster F) × (get_status n g m
          ≡ ok (some status))))
      × (((cluster_ready m).code ≡ 200) ⊎ ((cluster_ready m).code ≡ 503))
  unfolding get_status get_cluster is_ready get_group_status
  reachable_ready_iff =
      let sound = Reachable-IsSound world reached in
      let (probe, codes) = cluster_ready_iff m sound.0 in
      (
        (
          (λ h.
              let (n, cluster, there, ready) = probe.0 h in
              let coherent = lookup-All (λ e. IsCoherent e.1.state) n m.clusters sound.1 there in
              let (g, status, found) =
                some_group cluster.state.status_store (sym coherent.1 ∙ ready) in
              (n, g, tagged n status, rw (there, found) refl)),
          (λ (n, g, status, found).
              let (cluster, there, stored) = get_status_found n g m found in
              let coherent = lookup-All (λ e. IsCoherent e.1.state) n m.clusters sound.1 there in
              probe.1 (
                n,
                cluster,
                there,
                coherent.1 ∙ some_group_stored g cluster.state.status_store stored.1,
              )),
        ),
        codes,
      )
