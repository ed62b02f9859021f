-- ===== src/Cluster/Registry.antt =====
-- Adding, removing and querying clusters.
use lag_radar.Base.{
  ◌≡◌, refl, sym, ap, ◌∙◌, ◌↔◌, ◌⊎◌, inl, inr, true, false, not, [], ◌∷◌, ◌++◌, map, Option, none,
  some, arith, IsSome, Bool-cases, Option-cases, ℕ,
}
use lag_radar.Base.Text.{Str, str_eq, str_eq_refl, str_eq_iff}
use lag_radar.Base.Map.{Map, lookup, insert, retain, lookup-insert, lookup-retain}
use lag_radar.Base.Result.{Result, ok, err, Result-cases}
use lag_radar.Collector.Types.{GroupStatus}
use lag_radar.Collector.Cycle.{get_group_status, get_all_group_statuses}
use lag_radar.Cluster.{
  ConfigCluster, Manager, ManagerError, World, GroupStatusCluster, tagged, tagged_if_found,
  join_brokers, new_cluster, started, add_cluster, remove_cluster, get_cluster,
  get_cluster_group_statuses, get_status,
}

-- A new key that is inserted and deleted again leaves no trace.
lookup-retain-insert :
    {V : Type 0} (k j : Str) (v : V) (m : Map V)
    → lookup k m ≡ none
    → lookup j (retain (λ i. not (str_eq k i)) (insert k v m)) ≡ lookup j m
lookup-retain-insert k j v m absent = elim (Bool-cases (str_eq k j)) [
  | inl same ↦
      lookup-retain _ j (insert k v m)
      ∙ rw same (sym absent ∙ ap (λ i. lookup i m) ((str_eq_iff k j).0 same))
  | inr other ↦ lookup-retain _ j (insert k v m) ∙ rw (other, lookup-insert k j v m, other) refl
]

module _ {F H : Type 0} (world : World F H) (config : ConfigCluster F) (m : Manager F H) where
  -- A cluster that is disabled, that is there already, or for which no client can be made leaves the
  -- manager as it was; no error is returned exactly if it is disabled.
  pub add_cluster_refused :
      (config.enabled ≡ false)
        ⊎ (IsSome (get_cluster config.name m)
            ⊎ ((e : ℕ) × (world.new_client (join_brokers config.brokers) ≡ err e)))
      → ((add_cluster world config m).1 ≡ m)
        × (((add_cluster world config m).0 ≡ none) ↔ (config.enabled ≡ false))
  unfolding add_cluster get_cluster
  add_cluster_refused (inl off) = rw off (refl, ((λ h. refl), (λ h. refl)))
  add_cluster_refused (inr (inl (cluster, there))) = elim (Bool-cases config.enabled) [
    | inl on ↦ rw (on, there) (refl, ((λ h. ground arith), (λ h. ground arith)))
    | inr off ↦ rw off (refl, ((λ h. refl), (λ h. refl)))
  ]
  add_cluster_refused (inr (inr (e, failed))) = elim (Bool-cases config.enabled) [
    | inl on ↦ elim (Option-cases (lookup config.name m.clusters)) [
      | inl absent ↦ rw (on, absent, failed) (refl, ((λ h. ground arith), (λ h. ground arith)))
      | inr (cluster, there) ↦ rw (on, there) (refl, ((λ h. ground arith), (λ h. ground arith)))
    ]
    | inr off ↦ rw off (refl, ((λ h. refl), (λ h. refl)))
  ]

  -- The manager with the new cluster.
  abbrev pub extended : Manager F H
  extended = record m {
    clusters = insert config.name (new_cluster world m config) m.clusters;
    effects = m.effects ++ started config.name ∷ [];
  }

  pub add_cluster_new :
      {client : Str}
      → config.enabled ≡ true
      → lookup config.name m.clusters ≡ none
      → world.new_client (join_brokers config.brokers) ≡ ok client
      → add_cluster world config m ≡ (none, extended)
  unfolding add_cluster
  add_cluster_new on absent made = simp (on, absent, made)

  pub add_cluster-cases :
      ((add_cluster world config m).1 ≡ m)
      ⊎ ((get_cluster config.name m ≡ none) × ((add_cluster world config m).1 ≡ extended))
  unfolding add_cluster get_cluster
  add_cluster-cases = elim (Bool-cases config.enabled) [
    | inr off ↦ inl (rw off refl)
    | inl on ↦ elim (Option-cases (lookup config.name m.clusters)) [
      | inr (cluster, there) ↦ inl (rw (on, there) refl)
      | inl absent ↦ elim (Result-cases (world.new_client (join_brokers config.brokers))) [
        | inr (e, failed) ↦ inl (rw (on, absent, failed) refl)
        | inl (client, made) ↦ inr (absent, ap (λ r. r.1) (add_cluster_new on absent made))
      ]
    ]
  ]

  -- An enabled cluster that is new and for which a client can be made is added without an error, and
  -- then found by its name; removing it again succeeds and restores what each name is found to be.
  pub remove-add_cluster :
      {client : Str} (j : Str)
      → config.enabled ≡ true
      → get_cluster config.name m ≡ none
      → world.new_client (join_brokers config.brokers) ≡ ok client
      → let added = add_cluster world config m in
        let removed = remove_cluster config.name added.1 in
        (added.0 ≡ none)
        × (get_cluster config.name added.1 ≡ some (new_cluster world m config))
        × (removed.0 ≡ none)
        × (get_cluster j removed.1 ≡ get_cluster j m)
  unfolding get_cluster remove_cluster
  remove-add_cluster j on absent made =
      let found =
        lookup-insert config.name config.name (new_cluster world m config) m.clusters
        ∙ rw (str_eq_refl config.name) in
      rw (add_cluster_new on absent made) (
        refl,
        found,
        rw (found, remove_cluster),
        rw (found, remove_cluster) (lookup-retain-insert config.name j _ m.clusters absent),
      )

module _ {F : Type 0} where
  lookup-tagged :
      (name g : Str) (store : Map (GroupStatus F))
      → lookup g (map (λ e. (e.0, tagged name e.1)) store) ≡ tagged_if_found name (lookup g store)
  unfolding lookup
  lookup-tagged name g [] = refl
  lookup-tagged name g ((k, s) ∷ store) = ground (arith, lookup-tagged name g store)

  -- The entry of a group in the statuses of a cluster, with the error of those.
  abbrev pub entry :
      Str
      → Result ManagerError (Map (GroupStatusCluster F))
      → Result ManagerError (Option (GroupStatusCluster F))
  entry g (ok statuses) = ok (lookup g statuses)
  entry g (err e) = err e

-- The status of a group in a cluster is its entry in the statuses of that cluster; both queries refuse
-- an unknown cluster with the same error.
pub get_status-entry :
    {F H : Type 0} (m : Manager F H) (name g : Str)
    → get_status name g m ≡ entry g (get_cluster_group_statuses name m)
unfolding get_status get_cluster_group_statuses get_group_status get_all_group_statuses
get_status-entry m name g = elim (Option-cases (get_cluster name m)) [
  | inl unknown ↦ rw unknown
  | inr (cluster, found) ↦ rw found (ap ok (sym (lookup-tagged name g cluster.state.status_store)))
]
