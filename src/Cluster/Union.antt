-- ===== src/Cluster/Union.antt =====
-- The statuses of all clusters in one map, under keys such as `cluster/group`.
use lag_radar.Base.{
  ◌≡◌, refl, sym, ap, ◌∙◌, true, false, ◌&&◌, [], ◌∷◌, ◌++◌, Option, none, some, arith, All,
  Bool-cases, Option-cases, inl, inr, if◌then◌else◌,
}
use lag_radar.Base.Text.{Str, str_eq, str_eq_iff}
use lag_radar.Base.Strings.{slash, NoSlash}
use lag_radar.Base.Map.{
  Map, Distinct, lookup, insert, lookup-insert, insert-All, or_else, or_else-none,
}
use lag_radar.Base.Result.{Result, ok, err}
use lag_radar.Collector.Types.{GroupStatus}
use lag_radar.Collector.Cycle.{get_group_status, get_all_group_statuses}
use lag_radar.Cluster.{
  CollectorCluster, Manager, ManagerError, GroupStatusCluster, tagged, tagged_if_found, get_cluster,
  get_status, add_statuses, add_clusters, get_all_statuses,
}

-- The key of a group of a cluster.
abbrev pub union_key : Str → Str → Str
union_key name g = name ++ (slash ∷ g)

pub str_eq-union_key :
    (a b g h : Str)
    → NoSlash a
    → NoSlash b
    → str_eq (union_key a g) (union_key b h) ≡ (str_eq a b && str_eq g h)
unfolding str_eq
str_eq-union_key [] [] g h p q = ground arith
str_eq-union_key [] (c ∷ b) g h p q = ground arith
str_eq-union_key (c ∷ a) [] g h p q = ground arith
str_eq-union_key (c ∷ a) (d ∷ b) g h p q = ground (arith, str_eq-union_key a b g h p.1 q.1)

module _ {F : Type 0} (name n g : Str) (p : NoSlash name) (q : NoSlash n) where
  lookup-add_statuses_other :
      (store : Map (GroupStatus F)) (result : Map (GroupStatusCluster F))
      → str_eq name n ≡ false
      → lookup (union_key n g) (add_statuses name store result) ≡ lookup (union_key n g) result
  unfolding add_statuses
  lookup-add_statuses_other [] result other = refl
  lookup-add_statuses_other ((k, s) ∷ store) result other =
      lookup-add_statuses_other store _ other
      ∙ lookup-insert (union_key name k) (union_key n g) (tagged name s) result
      ∙ rw (str_eq-union_key name n k g p q, other) refl

  lookup-add_statuses :
      (store : Map (GroupStatus F)) (result : Map (GroupStatusCluster F))
      → Distinct store
      → str_eq name n ≡ true
      → lookup (union_key n g) (add_statuses name store result)
        ≡ or_else (tagged_if_found name (lookup g store)) (lookup (union_key n g) result)
  unfolding add_statuses lookup
  lookup-add_statuses [] result d same = refl
  lookup-add_statuses ((k, s) ∷ store) result d same =
      let rest =
        lookup-add_statuses store (insert (union_key name k) (tagged name s) result) d.1 same in
      let new : lookup (union_key n g) (insert (union_key name k) (tagged name s) result)
          ≡ (if str_eq k g then some (tagged name s) else lookup (union_key n g) result) =
        lookup-insert (union_key name k) (union_key n g) (tagged name s) result
        ∙ rw (str_eq-union_key name n k g p q, same) refl in
      elim (Bool-cases (str_eq k g)) [
        | inl this ↦
            let gone : lookup g store ≡ none =
              ap (λ j. lookup j store) (sym ((str_eq_iff k g).0 this)) ∙ d.0 in
            rest ∙ rw (gone, new, this) refl
        | inr that ↦ rest ∙ rw (new, that) refl
      ]

abbrev pub if_known :
    {F : Type 0}
    → Result ManagerError (Option (GroupStatusCluster F))
    → Option (GroupStatusCluster F)
if_known (err e) = none
if_known (ok found) = found

module _ {F H : Type 0} where
  -- The names of the clusters have no slashes, and no map holds a key twice.
  abbrev pub AllPlain : Map (CollectorCluster F H) → Type 0
  AllPlain = All λ e. NoSlash e.0 × Distinct (get_all_group_statuses e.1.state)

  abbrev status_in : Str → Str → Option (CollectorCluster F H) → Option (GroupStatusCluster F)
  status_in name g none = none
  status_in name g (some cluster) = tagged_if_found name (get_group_status g cluster.state)

  lookup-add_clusters :
      (n g : Str) (clusters : Map (CollectorCluster F H)) (result : Map (GroupStatusCluster F))
      → NoSlash n
      → Distinct clusters
      → AllPlain clusters
      → lookup (union_key n g) (add_clusters clusters result)
        ≡ or_else (status_in n g (lookup n clusters)) (lookup (union_key n g) result)
  unfolding add_clusters lookup get_group_status get_all_group_statuses
  lookup-add_clusters n g [] result q d plain = refl
  lookup-add_clusters n g ((name, cluster) ∷ clusters) result q d plain =
      let store = cluster.state.status_store in
      let rest = lookup-add_clusters n g clusters (add_statuses name store result) q d.1 plain.1 in
      elim (Bool-cases (str_eq name n)) [
        | inl this ↦
            let same = (str_eq_iff name n).0 this in
            let gone : lookup n clusters ≡ none = ap (λ j. lookup j clusters) (sym same) ∙ d.0 in
            rest
            ∙ rw (gone, this, lookup-add_statuses name n g plain.0.0 q store result plain.0.1 this)
                (ap
                  (λ j.
                    or_else (tagged_if_found j (lookup g store)) (lookup (union_key n g) result))
                  same)
        | inr that ↦
            rest ∙ rw (that, lookup-add_statuses_other name n g plain.0.0 q store result that) refl
      ]

  -- In the union of the statuses of clusters whose names have no slashes, the entry of a group of a
  -- cluster is the status of that group in that cluster, and there is none for a group or a cluster that
  -- is not there; also where the names of groups have slashes.
  pub lookup-get_all_statuses :
      (m : Manager F H) (n g : Str)
      → NoSlash n
      → Distinct m.clusters
      → AllPlain m.clusters
      → lookup (union_key n g) (get_all_statuses m) ≡ if_known (get_status n g m)
  unfolding get_all_statuses get_status get_cluster lookup
  lookup-get_all_statuses m n g q d plain = elim (Option-cases (lookup n m.clusters)) [
    | inl unknown ↦ lookup-add_clusters n g m.clusters [] q d plain ∙ rw unknown refl
    | inr (cluster, known) ↦
        lookup-add_clusters n g m.clusters [] q d plain
        ∙ rw known (or_else-none (tagged_if_found n (get_group_status g cluster.state)))
  ]

module _ {F : Type 0} where
  -- Each key of the map is the key of a group of a cluster whose name has no slash.
  abbrev pub IsKeyed : Str × GroupStatusCluster F → Type 0
  IsKeyed e = (name : Str) × (g : Str) × NoSlash name × (e.0 ≡ union_key name g)

  add_statuses-IsKeyed :
      (name : Str) (store : Map (GroupStatus F)) (result : Map (GroupStatusCluster F))
      → NoSlash name
      → All IsKeyed result
      → All IsKeyed (add_statuses name store result)
  unfolding add_statuses
  add_statuses-IsKeyed name [] result p keyed = keyed
  add_statuses-IsKeyed name ((g, s) ∷ store) result p keyed =
      add_statuses-IsKeyed name store _ p
        (insert-All IsKeyed (union_key name g) (tagged name s) result (name, g, p, refl) keyed)

  add_clusters-IsKeyed :
      {H : Type 0} (clusters : Map (CollectorCluster F H)) (result : Map (GroupStatusCluster F))
      → AllPlain clusters
      → All IsKeyed result
      → All IsKeyed (add_clusters clusters result)
  unfolding add_clusters
  add_clusters-IsKeyed [] result plain keyed = keyed
  add_clusters-IsKeyed ((name, cluster) ∷ clusters) result plain keyed =
      add_clusters-IsKeyed clusters _ plain.1
        (add_statuses-IsKeyed name (get_all_group_statuses cluster.state) result plain.0.0 keyed)

  pub get_all_statuses-IsKeyed :
      {H : Type 0} (m : Manager F H) → AllPlain m.clusters → All IsKeyed (get_all_statuses m)
  unfolding get_all_statuses
  get_all_statuses-IsKeyed m plain = add_clusters-IsKeyed m.clusters [] plain tt
