-- ===== src/Api/Listing.antt =====
-- The list of the groups of all clusters, against the status of each group.
use lag_radar.Base.{
  ◌≡◌, refl, ap, ◌∙◌, ◌&&◌, List, [], ◌∷◌, Option, none, some, All, Bool-cases, inl, inr,
  if◌then◌else◌,
}
use lag_radar.Base.Text.{Str, str_eq}
use lag_radar.Base.Strings.{NoSlash, split_once-append}
use lag_radar.Base.Map.{Map, Distinct, lookup}
use lag_radar.Collector.Types.{GroupStatus}
use lag_radar.Cluster.{Manager, GroupStatusCluster, get_status, get_all_statuses}
use lag_radar.Cluster.Union.{
  union_key, str_eq-union_key, AllPlain, IsKeyed, if_known, lookup-get_all_statuses,
  get_all_statuses-IsKeyed,
}
use lag_radar.Api.{
  Body, GroupWithCluster, all_groups, split_statuses, get_all_groups_across_clusters,
}

module _ {F : Type 0} where
  -- The status that a list has for a group of a cluster: that of the first item for them.
  unfoldable pub listed : Str → Str → List (GroupWithCluster F) → Option (GroupStatus F)
  listed n g [] = none
  listed n g (item ∷ items) =
      if str_eq item.cluster n && str_eq item.group g
      then some item.group_status
      else listed n g items

  abbrev pub without_cluster : Option (GroupStatusCluster F) → Option (GroupStatus F)
  without_cluster none = none
  without_cluster (some status) = some status.group_status

  listed-split_statuses :
      (n g : Str) (statuses : Map (GroupStatusCluster F))
      → NoSlash n
      → All IsKeyed statuses
      → listed n g (split_statuses statuses) ≡ without_cluster (lookup (union_key n g) statuses)
  unfolding listed split_statuses lookup
  listed-split_statuses n g [] q keyed = refl
  listed-split_statuses n g ((k, status) ∷ statuses) q ((name, h, p, e), keyed) =
      let rest = listed-split_statuses n g statuses q keyed in
      rw (e, split_once-append name h p, str_eq-union_key name n h g p q)
        (elim (Bool-cases (str_eq name n && str_eq h g)) [
          | inl this ↦ rw this refl
          | inr that ↦ rw that rest
        ])

  -- The list in an answer, if it has one.
  abbrev pub listed_in : Str → Str → Body F → Option (GroupStatus F)
  listed_in n g (all_groups items) = listed n g items
  listed_in n g _ = none

-- Where the names of the clusters have no slashes, the aggregated answer lists, for each cluster and
-- each group, the status that the query of that group in that cluster returns, and nothing for a group
-- or a cluster that is not there; also where the names of groups have slashes.
pub get_all_groups_across_clusters-get_status :
    {F H : Type 0} (m : Manager F H) (n g : Str)
    → NoSlash n
    → Distinct m.clusters
    → AllPlain m.clusters
    → listed_in n g (get_all_groups_across_clusters m).content
      ≡ without_cluster (if_known (get_status n g m))
unfolding get_all_groups_across_clusters
get_all_groups_across_clusters-get_status m n g q d plain =
    listed-split_statuses n g (get_all_statuses m) q (get_all_statuses-IsKeyed m plain)
    ∙ ap without_cluster (lookup-get_all_statuses m n g q d plain)
