-- ===== src/Api/Paths.antt =====
-- Which handler a path below `/api/v1/clusters/` reaches, and what it answers.
use lag_radar.Base.{
  ◌≡◌, List, if◌then◌else◌, Bool-cases, inl, inr, refl, sym, ap, ◌∙◌, true, ◌∷◌, ◌++◌, arith,
  append_assoc,
}
use lag_radar.Base.Text.{Str, codes, str_eq}
use lag_radar.Base.Strings.{
  slash, NoSlash, has_suffix, has_part, has_part-append, trim_prefix-append, split_slashes,
  split_slashes-append, split_slashes-cons, join_slashes, join-split,
}
use lag_radar.Cluster.{Manager, get_status, get_cluster_group_statuses}
use lag_radar.Api.{
  clusters_prefix, path_parts, invalid_path, group_response, groups_response, get_cluster_status,
  get_cluster_groups, get_cluster_group_status, route_clusters,
}

-- The documented path of a group in a cluster.
abbrev pub group_path : Str → Str → Str
group_path name group_id = clusters_prefix ++ (name ++ (codes "/groups/" ++ group_id))

path_parts-group_path :
    (name group_id : Str)
    → NoSlash name
    → path_parts (group_path name group_id) ≡ name ∷ codes "groups" ∷ split_slashes group_id
unfolding path_parts
path_parts-group_path name group_id plain =
    let rest = codes "groups/" ++ group_id in
    ap split_slashes (trim_prefix-append clusters_prefix (name ++ (slash ∷ rest)))
    ∙ split_slashes-append name rest plain
    ∙ ap (λ parts. name ∷ parts) (split_slashes-append (codes "groups") group_id (ground arith))

module _ {F H : Type 0} (m : Manager F H) (name group_id : Str) where
  parts_of_path :
      NoSlash name
      → (first : Str) × (rest : List Str) × (path_parts (group_path name group_id)
          ≡ name ∷ codes "groups" ∷ first ∷ rest)
        × (join_slashes (first ∷ rest) ≡ group_id)
  parts_of_path plain =
      let (first, rest, e) = split_slashes-cons group_id in
      let parts = path_parts-group_path name group_id plain in
      (first, rest, rw e at parts, rw e at (join-split group_id))

  has_part-group_path : has_part (codes "/groups/") (group_path name group_id) ≡ true
  has_part-group_path =
      rw (sym (append_assoc clusters_prefix name (codes "/groups/" ++ group_id)))
        (has_part-append (clusters_prefix ++ name) (codes "/groups/") group_id)

  -- The documented path of a group in a cluster whose name has no slash is answered with the status of
  -- the group, or the error of a group or a cluster that is not there, also where the group's name has
  -- slashes; except that it is refused as invalid where it ends in `/status`, and else answered with the
  -- groups of the cluster where it ends in `/groups`.
  pub route-group_path :
      NoSlash name
      → let path = group_path name group_id in
        route_clusters m path ≡ (
          if has_suffix (codes "/status") path
          then invalid_path
          else if has_suffix (codes "/groups") path
          then groups_response (get_cluster_group_statuses name m)
          else group_response name group_id (get_status name group_id m))
  unfolding route_clusters get_cluster_status get_cluster_groups get_cluster_group_status get_status
      str_eq
  route-group_path plain =
      let path = group_path name group_id in
      let (first, rest, parts, joined) = parts_of_path plain in
      elim (Bool-cases (has_suffix (codes "/status") path)) [
        | inl status ↦ rw (status, parts)
        | inr other ↦ elim (Bool-cases (has_suffix (codes "/groups") path)) [
          | inl groups ↦ rw (other, groups, parts)
          | inr group ↦ rw (other, group, has_part-group_path, parts, joined) refl
        ]
      ]
